-- ===== src/Engine/Rewrite.antt =====
-- A transaction that writes an object, from its start to its commit or abort, and the next one.
use librarius.Prelude.{ℕ, suc, ◌+◌, ◌<◌, ◌≡◌, refl, sym, subst, ◌∙◌, ap, arith, List, ◌∷◌, length}
use librarius.Error.{Error, Result, ok, err, Action, lift, ◌>>=◌, ◌>>◌}
use librarius.Source.{Source, Page}
use librarius.Source.Contract.{Addressable}
use librarius.Las.Space.{write_through}
use librarius.Vos.Place.{Place, cell}
use librarius.Vos.Version.Words.{direct_space}
use librarius.Vos.Object.{ObjectSize, total}
use librarius.Vos.Reader.History.{Copy}
use librarius.Tx.{Transaction, new_transaction, on_las, write, read, commit}
use librarius.Tx.Stocked.{Stocked, Widths}
use librarius.Tx.Stocked.Seen.{Stocked-read}
use librarius.Tx.Stocked.Advance.{write-Rewritten, Made-Published}
use librarius.Tx.Stocked.Undone.{Made-Restored}
use librarius.Engine.{Librarius, run_once, finish}

module _ {S : Type 0} ⦃src : Source S⦄ where
  -- A closure that writes an object, fills its memory and ends with a result.
  unfoldable pub rewrite :
      {R : Type 0} → ℕ → Place → ObjectSize → List ℕ → Result R → Action (Transaction S) R
  rewrite fuel pointer size content result = do
    memory ← write fuel pointer size
    on_las (write_through memory content)
    lift result

  -- A run of a read that succeeds.
  run_once-read :
      (fuel : ℕ) (pointer : Place) (size : ObjectSize) (l : Librarius S) (bytes : List ℕ)
      → (read fuel pointer size (new_transaction l.vos l.root)).0 ≡ ok bytes
      → (run_once (read fuel pointer size) l).0 ≡ ok bytes
  unfolding run_once finish read commit new_transaction
  run_once-read fuel pointer size l bytes got = ground (arith, got)

module _ {R S : Type 0} ⦃src : Source S⦄ (arr : Addressable S) (k base : ℕ) (size : ObjectSize)
    (c : ℕ) (l : Librarius S) (page next : Page) (rest : List Page) (h : Copy) (older : List Copy)
    (x : Stocked arr k base size c l.vos (page ∷ next ∷ rest) h older)
    (widths : Widths arr k base size c) (small : l.vos.version + 1 < direct_space)
    (content : List ℕ) (same_length : length content ≡ total size) (fuel : ℕ) where
  -- The database after the run.
  record Ran (result : Result R) (pages : List Page) : Type 0 where
    after : Librarius S
    runs : run_once (rewrite (suc fuel) (cell c) size content result) l ≡ (result, after)
    newest : Copy
    others : List Copy
    more : length others < length older + 2
    stocked : Stocked arr k base size c after.vos pages newest others

  reading :
      (result : Result R) (pages : List Page) (y : Ran result pages)
      → length older + 2 < fuel
      → ((run_once (rewrite (suc fuel) (cell c) size content result) l).0 ≡ result)
        × ((run_once
              (read fuel (cell c) size)
              (run_once (rewrite (suc fuel) (cell c) size content result) l).1).0
            ≡ ok y.newest.found.userdata)
  reading result pages y enough =
      subst
        (λ (z : Result R × Librarius S).
          (z.0 ≡ result)
          × ((run_once (read fuel (cell c) size) z.1).0 ≡ ok y.newest.found.userdata))
        (sym y.runs)
        (
          refl,
          run_once-read fuel (cell c) size y.after y.newest.found.userdata (
              Stocked-read arr k base size c y.after.vos y.after.root pages y.newest y.others fuel
                y.stocked (omega (arith, enough, y.more))),
        )

  -- For a database with an object that is not empty at a cell, whose copies stand in memory with
  -- the newest committed and their versions below 2^63, and whose first byte-addressable source
  -- has free pages with room for a copy, below 2^54, all of it apart, with two such pages and the
  -- next count below 2^63: run_once of a closure that writes the object, stores new bytes of its
  -- length in the memory and ends with a value gives that value, and run_once of a read on the
  -- database that it leaves, with fuel for the copies, gives the new bytes.
  pub rewrite-read :
      (r : R)
      → length older + 2 < fuel
      → ((run_once (rewrite (suc fuel) (cell c) size content (ok r)) l).0 ≡ ok r)
        × ((run_once
              (read fuel (cell c) size)
              (run_once (rewrite (suc fuel) (cell c) size content (ok r)) l).1).0
            ≡ ok content)
  unfolding run_once finish rewrite
  rewrite-read r enough =
      let y =
        write-Rewritten arr k base size c l.vos l.root page next rest h older x widths small fuel
          content same_length in
      let p =
        Made-Published arr k base size c l.vos l.root page next rest h older x widths small
          y.las_filled content y.made in
      let ran : Ran (ok r) rest = record {
        after = record l { vos = record { las = p.las_after; version = l.vos.version + 1 } };
        runs = ground (arith, y.wrote, y.filled, p.run);
        newest = p.newest;
        others = p.older;
        more = omega (arith, p.count);
        stocked = p.stocked;
      } in
      let (ended, got) = reading (ok r) rest ran enough in (ended, got ∙ ap ok p.userdata)

  -- For a database with an object that is not empty at a cell, whose copies stand in memory with
  -- the newest committed and their versions below 2^63, and whose first byte-addressable source
  -- has free pages with room for a copy, below 2^54, all of it apart, with two such pages and the
  -- next count below 2^63: run_once of a closure that writes the object, stores new bytes of its
  -- length in the memory and ends with an error gives that error, and run_once of a read on the
  -- database that it leaves, with fuel for the copies, gives the bytes from before the closure.
  pub rewrite-read_before :
      (e : Error)
      → length older + 2 < fuel
      → ((run_once (rewrite {R = R} (suc fuel) (cell c) size content (err e)) l).0 ≡ err e)
        × ((run_once
              (read fuel (cell c) size)
              (run_once (rewrite {R = R} (suc fuel) (cell c) size content (err e)) l).1).0
            ≡ ok h.found.userdata)
  unfolding run_once finish rewrite
  rewrite-read_before e enough =
      let y =
        write-Rewritten arr k base size c l.vos l.root page next rest h older x widths small fuel
          content same_length in
      let p =
        Made-Restored arr k base size c l.vos l.root page next rest h older x widths small
          y.las_filled content y.made in
      let ran : Ran (err e) rest = record {
        after = record l { vos = record { las = p.las_after; version = l.vos.version } };
        runs = ground (arith, y.wrote, y.filled, p.run);
        newest = h;
        others = older;
        more = omega arith;
        stocked = p.stocked;
      } in
      reading (err e) rest ran enough
