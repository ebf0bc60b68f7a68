-- ===== src/Engine/Counter/Schedule.antt =====
-- Threads of the counter that commit or fail, in any order, against a number that is counted up.
use librarius.Prelude.{
  ℕ, suc, ◌+◌, ◌*◌, ◌≤◌, ◌<◌, ◌≡◌, refl, sym, subst, arith, Option, none, some, List, [], ◌∷◌,
  length,
}
use librarius.Usize.{word}
use librarius.Error.{Error, Result, ok, err, Action, lift, ◌>>=◌}
use librarius.Source.{Source, Page}
use librarius.Source.Contract.{Addressable}
use librarius.Vos.Version.Words.{direct_space}
use librarius.Tx.{Transaction}
use librarius.Engine.{Librarius, run_once, finish, run}
use librarius.Engine.Counter.{increment, counted}
use librarius.Engine.Counter.Step.{CountsTo, increment-Begun, commit-Ended, run-counted}

-- The abstract counter: an increment counts, one that fails does not.
unfoldable pub counting : List (Option Error) → ℕ → List (Result ℕ) × ℕ
counting [] v = ([], v)
counting (none ∷ schedule) v =
    let (results, total) = counting schedule (suc v) in (ok (suc v) ∷ results, total)
counting (some e ∷ schedule) v =
    let (results, total) = counting schedule v in (err e ∷ results, total)

module _ {S : Type 0} ⦃src : Source S⦄ (fuel : ℕ) where
  -- A thread's closure, which may fail behind its increment.
  unfoldable pub increment_or : Option Error → Action (Transaction S) ℕ
  increment_or ending t =
      (do n ← increment fuel; lift (elim ending [ none ↦ ok n | some e ↦ err e ])) t

  unfoldable pub run_all : List (Option Error) → Librarius S → List (Result ℕ) × Librarius S
  unfolding increment_or
  run_all [] l = ([], l)
  run_all (ending ∷ schedule) l =
      let (result, after) = run_once (increment_or ending) l in
      let (results, last) = run_all schedule after in (result ∷ results, last)

module _ {S : Type 0} ⦃src : Source S⦄ (arr : Addressable S) (k base c fuel : ℕ) where
  pub record Refined (schedule : List (Option Error)) (l : Librarius S) (v copies : ℕ)
      : Type 0 where
    pub last : Librarius S
    pub runs : run_all (suc fuel) schedule l ≡ ((counting schedule v).0, last)
    pub left : List Page
    pub copies_after : ℕ
    pub few : copies_after ≤ copies + length schedule
    pub counts : CountsTo arr k base c last left (counting schedule v).1 copies_after

  pub run_all-Refined :
      (schedule : List (Option Error)) (l : Librarius S) (pages : List Page) (v copies : ℕ)
      → CountsTo arr k base c l pages v copies
      → length schedule * 2 ≤ length pages
      → v + length schedule < word
      → l.vos.version + length schedule < direct_space
      → Refined schedule l v copies
  unfolding counting run_all run_once finish increment_or
  run_all-Refined [] l pages v copies x many room small = record {
    last = l;
    runs = refl;
    left = pages;
    copies_after = copies;
    few = omega arith;
    counts = x;
  }
  run_all-Refined (ending ∷ schedule) l [] v copies x many room small = absurd (omega (arith, many))
  run_all-Refined (ending ∷ schedule) l (page ∷ []) v copies x many room small =
      absurd (omega (arith, many))
  run_all-Refined (none ∷ schedule) l (page ∷ next ∷ rest) v copies x many room small =
      let y =
        increment-Begun arr k base c fuel l page next rest v copies x (omega (arith, room))
          (omega (arith, small)) in
      let l' : Librarius S = record l { vos = y.transaction.vos } in
      let z =
        commit-Ended arr k base c y.transaction l' y.slot rest (suc v) (suc copies) y.pending
          y.begun y.unread x.rooted (omega (arith, room)) (omega (arith, small, y.version_same)) in
      let more =
        run_all-Refined schedule _ rest (suc v) (suc copies) z.counts (omega (arith, many))
          (omega (arith, room)) (omega (arith, small, y.version_same)) in
      record {
        last = more.last;
        runs = ground (arith, y.runs, z.run, more.runs);
        left = more.left;
        copies_after = more.copies_after;
        few = omega (arith, more.few);
        counts = more.counts;
      }
  run_all-Refined (some e ∷ schedule) l (page ∷ next ∷ rest) v copies x many room small =
      let y =
        increment-Begun arr k base c fuel l page next rest v copies x (omega (arith, room))
          (omega (arith, small)) in
      let more =
        run_all-Refined schedule _ rest v copies y.back (omega (arith, many)) (omega (arith, room))
          (omega (arith, small)) in
      record {
        last = more.last;
        runs = ground (arith, y.runs, y.undone, more.runs);
        left = more.left;
        copies_after = more.copies_after;
        few = omega (arith, more.few);
        counts = more.counts;
      }

  -- For a database with an object that is not empty at a cell, whose copies stand in memory with
  -- the newest committed and their versions below 2^63, and whose first byte-addressable source
  -- has free pages with room for a copy, below 2^54, all of it apart, whose root is that object
  -- and holds the number v in 8 bytes: for every schedule of closures that increment it and then
  -- end well or with an error, with two free pages for each, v plus their number below 2^64, the
  -- count of versions plus their number below 2^63, and more fuel than there will be copies, the
  -- results of run_once of one after another are those of the abstract counter, in which an
  -- increment that ends well counts and one that fails does not, and a run behind them reads the
  -- number that the abstract counter ends with.
  pub run_all-counting :
      (attempts : ℕ) (schedule : List (Option Error)) (l : Librarius S) (pages : List Page)
      (v copies : ℕ)
      → CountsTo arr k base c l pages v copies
      → length schedule * 2 ≤ length pages
      → v + length schedule < word
      → l.vos.version + length schedule < direct_space
      → copies + length schedule < fuel
      → ((run_all (suc fuel) schedule l).0 ≡ (counting schedule v).0)
        × ((run (suc attempts) (counted (suc fuel)) (run_all (suc fuel) schedule l).1).0
            ≡ ok (counting schedule v).1)
  run_all-counting attempts schedule l pages v copies x many room small enough =
      let y = run_all-Refined schedule l pages v copies x many room small in
      subst
        (λ (z : List (Result ℕ) × Librarius S).
          (z.0 ≡ (counting schedule v).0)
          × ((run (suc attempts) (counted (suc fuel)) z.1).0 ≡ ok (counting schedule v).1))
        (sym y.runs)
        (
          refl,
          run-counted arr k base c attempts (suc fuel) y.last y.left (counting schedule v).1
              y.copies_after y.counts (omega (arith, enough, y.few)),
        )
