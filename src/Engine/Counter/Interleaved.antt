-- ===== src/Engine/Counter/Interleaved.antt =====
-- Threads of the counter that run beside the transaction of one of them, and one that comes after it.
use librarius.Prelude.{
  ℕ, zero, suc, ◌+◌, ◌≤◌, ◌<◌, ◌≡◌, refl, arith, List, [], ◌∷◌, length, replicate, le_bytes,
}
use librarius.Usize.{word}
use librarius.Error.{Result, ok, err, tx_aborted}
use librarius.Source.{Source, Page}
use librarius.Source.Contract.{Addressable}
use librarius.Vos.Place.{cell}
use librarius.Vos.Version.Words.{direct_space}
use librarius.Tx.{new_transaction, commit, abort, rollback_all}
use librarius.Tx.Stocked.Pending.{Pending}
use librarius.Tx.Stocked.Blocked.{write-Blocked}
use librarius.Engine.{Librarius, run_once, finish, run}
use librarius.Engine.Counter.{root_size, increment, counted}
use librarius.Engine.Counter.Step.{
  CountsTo, Incremented, run-increment, run-counted, increment-Begun, commit-Ended,
}

module _ {S : Type 0} ⦃src : Source S⦄ (fuel : ℕ) where
  -- Attempts to increment, one after the other, with what each ends with.
  unfoldable pub tries : ℕ → Librarius S → List (Result ℕ) × Librarius S
  tries zero l = ([], l)
  tries (suc n) l =
      let (r, after) = run_once (increment fuel) l in
      let (rs, last) = tries n after in (r ∷ rs, last)

-- What a thread's closure gives and how its commit ends, the attempts of others between the two, a
-- thread behind it, and the number that is read in the end.
pub record Outcome : Type 0 where
  pub closure : Result ℕ
  pub beside : List (Result ℕ)
  pub committed : Result (Unit {0})
  pub behind : Result ℕ
  pub total : Result ℕ

unfoldable pub race : {S : Type 0} ⦃src : Source S⦄ → ℕ → ℕ → ℕ → Librarius S → Outcome
unfolding tries
race attempts fuel n l =
    let (closure, t) = increment fuel (new_transaction l.vos l.root) in
    let (beside, l1) = tries fuel n (record l { vos = t.vos }) in
    let (committed, t') = commit (record t { vos = l1.vos }) in
    let (behind, l2) = run attempts (increment fuel) (record l1 { vos = t'.vos }) in
    record {
      closure = closure;
      beside = beside;
      committed = committed;
      behind = behind;
      total = (run attempts (counted fuel) l2).0;
    }

module _ {S : Type 0} ⦃src : Source S⦄ (arr : Addressable S) (k base c slot : ℕ) (content : List ℕ)
    (copies fuel : ℕ) where
  -- The database after attempts beside an increment that is not committed.
  pub record Tried (n : ℕ) (l : Librarius S) (pages : List Page) : Type 0 where
    pub last : Librarius S
    pub runs : tries (suc fuel) n l ≡ (replicate n (err tx_aborted), last)
    pub rooted : last.root ≡ cell c
    pub version_same : last.vos.version ≡ l.vos.version
    pub left : List Page
    pub fewer : length left + n ≡ length pages
    pub pending : Pending arr k base root_size c slot last.vos left content copies

  pub tries-Tried :
      (n : ℕ) (l : Librarius S) (pages : List Page)
      → Pending arr k base root_size c slot l.vos pages content copies
      → l.root ≡ cell c
      → n + 1 ≤ length pages
      → Tried n l pages
  unfolding tries run_once finish increment new_transaction abort rollback_all
  tries-Tried zero l pages x rooted enough = record {
    last = l;
    runs = refl;
    rooted = rooted;
    version_same = refl;
    left = pages;
    fewer = omega arith;
    pending = x;
  }
  tries-Tried (suc n) l [] x rooted enough = absurd (omega (arith, enough))
  tries-Tried (suc n) l (page ∷ []) x rooted enough = absurd (omega (arith, enough))
  tries-Tried (suc n) l (page ∷ next ∷ rest) x rooted enough =
      let y =
        write-Blocked arr k base root_size c slot l.vos l.root page next rest content copies x
          fuel in
      let more =
        tries-Tried n (record l { vos = record (l.vos) { las = y.las_after } }) (next ∷ rest)
          y.pending rooted (omega (arith, enough)) in
      record {
        last = more.last;
        runs = ground (arith, rooted, y.run, more.runs);
        rooted = more.rooted;
        version_same = more.version_same;
        left = more.left;
        fewer = omega (arith, more.fewer);
        pending = more.pending;
      }

module _ {S : Type 0} ⦃src : Source S⦄ (arr : Addressable S) (k base c : ℕ) where
  -- A thread, when there are two pages.
  run_behind :
      (attempts fuel : ℕ) (l : Librarius S) (pages : List Page) (v copies : ℕ)
      → CountsTo arr k base c l pages v copies
      → 2 ≤ length pages
      → suc v < word
      → l.vos.version + 1 < direct_space
      → (rest : List Page) × Incremented arr k base c attempts fuel l rest v copies
  run_behind attempts fuel l [] v copies x two room small = absurd (omega (arith, two))
  run_behind attempts fuel l (page ∷ []) v copies x two room small = absurd (omega (arith, two))
  run_behind attempts fuel l (page ∷ next ∷ rest) v copies x two room small =
      (rest, run-increment arr k base c attempts fuel l page next rest v copies x room small)

  -- For a database with an object that is not empty at a cell, whose copies stand in memory with
  -- the newest committed and their versions below 2^63, and whose first byte-addressable source
  -- has free pages with room for a copy, below 2^54, all of it apart, whose root is that object
  -- and holds the number v in 8 bytes: while a transaction that has incremented it is not
  -- committed, each of n attempts of others to increment it aborts with tx_aborted; then its
  -- commit succeeds, an increment behind it gives v + 2, and v + 2 is what is read in the end, so
  -- that no increment is lost. There are n + 4 free pages, v + 2 is below 2^64, the count of
  -- versions plus 2 below 2^63, and there is more fuel than there will be copies.
  pub race_lem :
      (attempts fuel n : ℕ) (l : Librarius S) (page next : Page) (pages : List Page) (v copies : ℕ)
      → CountsTo arr k base c l (page ∷ next ∷ pages) v copies
      → n + 2 ≤ length pages
      → v + 2 < word
      → l.vos.version + 2 < direct_space
      → copies + 2 < fuel
      → race (suc attempts) (suc fuel) n l ≡ record {
        closure = ok (v + 1);
        beside = replicate n (err tx_aborted);
        committed = ok tt;
        behind = ok (v + 2);
        total = ok (v + 2);
      }
  unfolding race
  race_lem attempts fuel n l page next pages v copies x many room small enough =
      let y =
        increment-Begun arr k base c fuel l page next pages v copies x (omega (arith, room))
          (omega (arith, small)) in
      let z =
        tries-Tried arr k base c y.slot (le_bytes 8 (suc v)) (suc copies) fuel n
          (record l { vos = y.transaction.vos }) pages y.pending x.rooted (omega (arith, many)) in
      let e =
        commit-Ended arr k base c y.transaction z.last y.slot z.left (suc v) (suc copies) z.pending
          y.begun y.unread z.rooted (omega (arith, room))
          (omega (arith, small, z.version_same, y.version_same)) in
      let (rest, w) =
        run_behind attempts fuel _ z.left (suc v) (suc copies) e.counts
          (omega (arith, many, z.fewer)) (omega (arith, room))
          (omega (arith, small, z.version_same, y.version_same)) in
      let total =
        run-counted arr k base c attempts (suc fuel) w.after rest (suc (suc v)) (suc (suc copies))
          w.counts (omega (arith, enough)) in
      ground (arith, y.runs, z.runs, e.run, w.runs, total)
