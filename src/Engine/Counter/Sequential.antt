-- ===== src/Engine/Counter/Sequential.antt =====
-- The threads of the counter, one after another, against counting.
use librarius.Prelude.{ℕ, zero, suc, ◌+◌, ◌*◌, ◌≤◌, ◌<◌, ◌≡◌, refl, arith, List, [], ◌∷◌, length}
use librarius.Usize.{word}
use librarius.Error.{ok}
use librarius.Source.{Source, Page}
use librarius.Source.Contract.{Addressable}
use librarius.Vos.Version.Words.{direct_space}
use librarius.Engine.{Librarius}
use librarius.Engine.Counter.Step.{CountsTo, recount, run-increment, run-counted}
use librarius.Engine.Counter.{threads, join_all, increments, counter}

-- So many numbers, counted up from one.
unfoldable pub count_from : ℕ → ℕ → List ℕ
count_from v zero = []
count_from v (suc n) = suc v ∷ count_from (suc v) n

module _ {S : Type 0} ⦃src : Source S⦄ (arr : Addressable S) (k base c : ℕ) where
  -- All the threads.
  pub record Counted (attempts fuel n : ℕ) (l : Librarius S) (v copies : ℕ) : Type 0 where
    pub after : Librarius S
    pub runs : increments (suc attempts) (suc fuel) n l ≡ (ok (count_from v n), after)
    pub left : List Page
    pub counts : CountsTo arr k base c after left (v + n) (copies + n)

  pub increments-Counted :
      (attempts fuel n : ℕ) (l : Librarius S) (pages : List Page) (v copies : ℕ)
      → CountsTo arr k base c l pages v copies
      → n * 2 ≤ length pages
      → v + n < word
      → l.vos.version + n < direct_space
      → Counted attempts fuel n l v copies
  unfolding increments threads join_all count_from
  increments-Counted attempts fuel zero l pages v copies x many room small = record {
    after = l;
    runs = refl;
    left = pages;
    counts = recount arr k base c l pages v copies _ _ x (omega arith) (omega arith);
  }
  increments-Counted attempts fuel (suc n) l [] v copies x many room small =
      absurd (omega (arith, many))
  increments-Counted attempts fuel (suc n) l (page ∷ []) v copies x many room small =
      absurd (omega (arith, many))
  increments-Counted attempts fuel (suc n) l (page ∷ next ∷ rest) v copies x many room small =
      let one =
        run-increment arr k base c attempts fuel l page next rest v copies x (omega (arith, room))
          (omega (arith, small)) in
      let more =
        increments-Counted attempts fuel n one.after rest (suc v) (suc copies) one.counts
          (omega (arith, many)) (omega (arith, room)) (omega (arith, small, one.version_after)) in
      record {
        after = more.after;
        runs = ground (arith, one.runs, more.runs);
        left = more.left;
        counts =
            recount arr k base c more.after more.left (suc v + n) (suc copies + n) _ _ more.counts
              (omega arith) (omega arith);
      }

  -- For a database with an object that is not empty at a cell, whose copies stand in memory with
  -- the newest committed and their versions below 2^63, and whose first byte-addressable source
  -- has free pages with room for a copy, below 2^54, all of it apart, whose root is that object
  -- and holds the number v in 8 bytes: with two free pages for each of n threads, v + n below
  -- 2^64, the count of versions plus n below 2^63, and more fuel than there will be copies, the
  -- threads of the counter, one after another, give the numbers v + 1 up to v + n in order, as
  -- counting does, and the transaction behind them reads v + n.
  pub counter-count_from :
      (attempts fuel n : ℕ) (l : Librarius S) (pages : List Page) (v copies : ℕ)
      → CountsTo arr k base c l pages v copies
      → n * 2 ≤ length pages
      → v + n < word
      → l.vos.version + n < direct_space
      → copies + n < fuel
      → (counter (suc attempts) (suc fuel) n l).0 ≡ ok (count_from v n, v + n)
  unfolding counter
  counter-count_from attempts fuel n l pages v copies x many room small enough =
      let y = increments-Counted attempts fuel n l pages v copies x many room small in
      let z =
        run-counted arr k base c attempts (suc fuel) y.after y.left (v + n) (copies + n) y.counts
          (omega (arith, enough)) in
      ground (arith, y.runs, z)
