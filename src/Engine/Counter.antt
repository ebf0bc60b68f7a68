-- ===== src/Engine/Counter.antt =====
-- src/librarius.rs: the `counter` test. The root object is a number, which every thread adds one to in a
-- transaction of its own. The threads run one after another here, and their results are kept.
pub mod Step
pub mod Sequential
pub mod Interleaved
pub mod Schedule
use librarius.Prelude.{ℕ, zero, suc, List, [], ◌∷◌, take, length, leb, le_value, le_bytes}
use librarius.Usize.{wrapping_add}
use librarius.Error.{
  Result, ok, err, panic, out_of_fuel, Action, and_then, assert, pure, ◌>>=◌, ◌>>◌,
}
use librarius.Source.{Source}
use librarius.Las.Slice.{split_at}
use librarius.Las.Space.{write_through}
use librarius.Las.Space
use librarius.Vos.Object.{ObjectSize, new_with_usize}
use librarius.Tx.{Transaction, on_las, write, read}
use librarius.Engine.{Librarius, RootConstructor, run}

-- `size_of::<usize>()`
abbrev pub usize_size : ℕ
usize_size = 8

unfoldable pub root_size : ObjectSize
root_size = new_with_usize 0 usize_size

-- `any_from_slice::<usize>`, of memory that is not shorter
unfoldable pub as_usize : List ℕ → ℕ
as_usize bytes = le_value (take usize_size bytes)

-- `th.join().unwrap()?` of one thread after another
unfoldable pub join_all : List (Result ℕ) → Result (List ℕ)
join_all [] = ok []
join_all (result ∷ rest) =
    and_then result λ count. and_then (join_all rest) λ counts. ok (count ∷ counts)

module _ {S : Type 0} ⦃src : Source S⦄ where
  -- `*counter = 0`
  unfoldable pub counter_root : RootConstructor S
  unfolding root_size
  counter_root = record {
    size = root_size;
    construct = λ data_. write_through (split_at data_ usize_size).0 (le_bytes 8 0);
  }

  -- The closure of a thread: `*counter += 1`.
  unfoldable pub increment : ℕ → Action (Transaction S) ℕ
  unfolding root_size as_usize
  increment fuel t =
      (do
        rootp ← write fuel t.root root_size
        bytes ← on_las (Space.read rootp)
        assert (leb usize_size (length bytes))
        let counter = wrapping_add (as_usize bytes) 1
        on_las (write_through (split_at rootp usize_size).0 (le_bytes 8 counter))
        pure counter)
        t

  -- The closure of the last transaction, with the value that it is asked to compare.
  unfoldable pub counted : ℕ → Action (Transaction S) ℕ
  unfolding root_size as_usize
  counted fuel t =
      (do
        rootp ← read fuel t.root root_size
        assert (leb usize_size (length rootp))
        pure (as_usize rootp))
        t

  module _ (attempts fuel : ℕ) where
    -- The threads, each run to its end, however the others end.
    unfoldable pub threads : ℕ → Librarius S → List (Result ℕ) × Librarius S
    unfolding increment
    threads zero l = ([], l)
    threads (suc nthreads) l =
        let (result, l') = run attempts (increment fuel) l in
        let (results, l'') = threads nthreads l' in (result ∷ results, l'')

    unfoldable pub increments : ℕ → Action (Librarius S) (List ℕ)
    unfolding threads
    increments nthreads l = let (results, l') = threads nthreads l in (join_all results, l')

    unfoldable pub counter : ℕ → Action (Librarius S) (List ℕ × ℕ)
    unfolding counted increments
    counter nthreads = do
      results ← increments nthreads
      total ← run attempts (counted fuel)
      pure (results, total)
