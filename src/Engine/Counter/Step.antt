-- ===== src/Engine/Counter/Step.antt =====
-- One thread of the counter: its increment before and after its commit.
use librarius.Prelude.{
  ℕ, suc, ◌+◌, ◌<◌, ◌≡◌, true, refl, sym, ap, subst, some, ◌∙◌, arith, List, [], ◌∷◌, length, leb,
  take, take-length, le_bytes, length-le_bytes, le_value, le_value-le_bytes,
}
use librarius.Usize.{word, wrapping_add}
use librarius.Error.{ok}
use librarius.Source.{Source, Page}
use librarius.Source.Contract.{Addressable}
use librarius.Las.Space.{LogicalAddressSpace}
use librarius.Las.Slice.{split_at}
use librarius.Vos.Place.{cell}
use librarius.Vos.Version.Words.{direct_space}
use librarius.Vos.Object.{new_with_usize, total}
use librarius.Vos.Reader.History.{Copy}
use librarius.Tx.{Transaction, new_transaction, read, commit, abort}
use librarius.Tx.Stocked.{Stocked, Widths}
use librarius.Tx.Stocked.Seen.{Stocked-read}
use librarius.Tx.Stocked.Undone.{Made-Restored}
use librarius.Tx.Stocked.Advance.{write-Rewritten, Made-Pending, q, written}
use librarius.Vos.Version.Slot.{indirect}
use librarius.Tx.Commit.{over}
use librarius.Tx.Stocked.Pending.{Pending, Pending-Published}
use librarius.Engine.{Librarius, run_once, finish, run}
use librarius.Engine.Counter.{usize_size, root_size, as_usize, increment, counted}

as_usize-fits :
    (bytes : List ℕ) (v : ℕ) → bytes ≡ le_bytes 8 v → leb usize_size (length bytes) ≡ true
as_usize-fits bytes v same =
    let long : length bytes ≡ 8 = ap length same ∙ length-le_bytes 8 v in ground (arith, long)

as_usize-le_bytes : (v : ℕ) → v < word → as_usize (le_bytes 8 v) ≡ v
unfolding as_usize
as_usize-le_bytes v small =
    ap (λ n. le_value (take n (le_bytes 8 v))) (sym (length-le_bytes 8 v))
    ∙ ap le_value (take-length (le_bytes 8 v))
    ∙ le_value-le_bytes 8 v small

module _ {S : Type 0} ⦃src : Source S⦄ (arr : Addressable S) (k base c : ℕ) where
  -- The database holds a number at its root.
  pub record CountsTo (l : Librarius S) (pages : List Page) (v copies : ℕ) : Type 0 where
    pub newest : Copy
    pub others : List Copy
    pub rooted : l.root ≡ cell c
    pub value : newest.found.userdata ≡ le_bytes 8 v
    pub in_range : v < word
    pub count : length others ≡ copies
    pub stocked : Stocked arr k base root_size c l.vos pages newest others

  pub recount :
      (l : Librarius S) (pages : List Page) (v copies w more : ℕ)
      → CountsTo l pages v copies
      → v ≡ w
      → copies ≡ more
      → CountsTo l pages w more
  recount l pages v copies w more x e f = record {
    newest = x.newest;
    others = x.others;
    rooted = x.rooted;
    value = x.value ∙ ap (le_bytes 8) e;
    in_range = omega (arith, e, x.in_range);
    count = x.count ∙ f;
    stocked = x.stocked;
  }

  widths : Widths arr k base root_size c
  unfolding root_size total new_with_usize
  widths = (omega arith, omega arith, omega arith)

  total_lem : total root_size ≡ 8
  unfolding root_size total new_with_usize
  total_lem = refl

  -- The increment of a thread, that is not committed yet.
  pub record Begun (fuel : ℕ) (l : Librarius S) (pages : List Page) (v copies : ℕ) : Type 0 where
    pub slot : ℕ
    pub transaction : Transaction S
    pub runs : increment (suc fuel) (new_transaction l.vos l.root) ≡ (ok (suc v), transaction)
    pub begun : transaction.version ≡ some (indirect slot)
    pub unread : transaction.readset ≡ []
    pub version_same : transaction.vos.version ≡ l.vos.version
    pub pending :
        Pending arr k base root_size c slot transaction.vos pages (le_bytes 8 (suc v)) (suc copies)
    -- what its abort would leave
    pub las_back : LogicalAddressSpace S
    pub undone : abort transaction ≡ (ok tt, over arr k transaction las_back l.vos.version)
    pub back :
        CountsTo
          (record l { vos = record { las = las_back; version = l.vos.version } })
          pages
          v
          copies

  pub increment-Begun :
      (fuel : ℕ) (l : Librarius S) (page next : Page) (rest : List Page) (v copies : ℕ)
      → CountsTo l (page ∷ next ∷ rest) v copies
      → suc v < word
      → l.vos.version + 1 < direct_space
      → Begun fuel l rest v copies
  unfolding increment split_at new_transaction
  increment-Begun fuel l page next rest v copies x room small =
      let y =
        write-Rewritten arr k base root_size c l.vos l.root page next rest x.newest x.others
          x.stocked widths small fuel (le_bytes 8 (suc v))
          (length-le_bytes 8 (suc v) ∙ sym total_lem) in
      let next_value : wrapping_add (as_usize x.newest.found.userdata) 1 ≡ suc v =
        ap (λ n. wrapping_add n 1) (ap as_usize x.value ∙ as_usize-le_bytes v x.in_range)
        ∙ omega (arith, room) in
      let z =
        Made-Restored arr k base root_size c l.vos l.root page next rest x.newest x.others x.stocked
          widths small y.las_filled (le_bytes 8 (suc v)) y.made in
      record {
        slot =
            q arr k base root_size c l.vos l.root page next rest x.newest x.others x.stocked widths
              small;
        transaction =
            written arr k base root_size c l.vos l.root page next rest x.newest x.others x.stocked
              widths small y.las_filled;
        runs = ground (
          arith,
          x.rooted,
          y.wrote,
          y.content_read,
          as_usize-fits x.newest.found.userdata v x.value,
          next_value,
          total_lem,
          y.filled,
        );
        begun = refl;
        unread = refl;
        version_same = refl;
        pending =
            subst (Pending arr k base root_size c _ _ rest (le_bytes 8 (suc v))) (ap suc x.count) (
              Made-Pending arr k base root_size c l.vos l.root page next rest x.newest x.others
                x.stocked widths small y.las_filled (le_bytes 8 (suc v)) y.made);
        las_back = z.las_after;
        undone = z.run;
        back = record {
          newest = x.newest;
          others = x.others;
          rooted = x.rooted;
          value = x.value;
          in_range = x.in_range;
          count = x.count;
          stocked = z.stocked;
        };
      }

  -- Its commit, in a database that still has its increment before it.
  pub record Ended (t : Transaction S) (l : Librarius S) (pages : List Page) (v copies : ℕ)
      : Type 0 where
    pub las_after : LogicalAddressSpace S
    pub run :
        commit (record t { vos = l.vos })
        ≡ (ok tt, over arr k (record t { vos = l.vos }) las_after (l.vos.version + 1))
    pub counts :
        CountsTo
          (record l { vos = record { las = las_after; version = l.vos.version + 1 } })
          pages
          v
          copies

  pub commit-Ended :
      (t : Transaction S) (l : Librarius S) (slot : ℕ) (pages : List Page) (v copies : ℕ)
      → Pending arr k base root_size c slot l.vos pages (le_bytes 8 v) copies
      → t.version ≡ some (indirect slot)
      → t.readset ≡ []
      → l.root ≡ cell c
      → v < word
      → l.vos.version + 1 < direct_space
      → Ended t l pages v copies
  commit-Ended t l slot pages v copies x begun unread rooted room small =
      let p =
        Pending-Published arr k base root_size c slot l.vos pages (le_bytes 8 v) copies x small t
          begun unread in
      record {
        las_after = p.las_after;
        run = p.run;
        counts = record {
          newest = p.newest;
          others = p.older;
          rooted = rooted;
          value = p.userdata;
          in_range = room;
          count = p.count;
          stocked = p.stocked;
        };
      }

  -- One thread.
  pub record Incremented (attempts fuel : ℕ) (l : Librarius S) (pages : List Page) (v copies : ℕ)
      : Type 0 where
    pub after : Librarius S
    pub runs : run (suc attempts) (increment (suc fuel)) l ≡ (ok (suc v), after)
    pub version_after : after.vos.version ≡ l.vos.version + 1
    pub counts : CountsTo after pages (suc v) (suc copies)

  pub run-increment :
      (attempts fuel : ℕ) (l : Librarius S) (page next : Page) (rest : List Page) (v copies : ℕ)
      → CountsTo l (page ∷ next ∷ rest) v copies
      → suc v < word
      → l.vos.version + 1 < direct_space
      → Incremented attempts fuel l rest v copies
  unfolding run run_once finish
  run-increment attempts fuel l page next rest v copies x room small =
      let y = increment-Begun fuel l page next rest v copies x room small in
      let l' : Librarius S = record l { vos = y.transaction.vos } in
      let z =
        commit-Ended y.transaction l' y.slot rest (suc v) (suc copies) y.pending y.begun y.unread
          x.rooted room (omega (arith, small, y.version_same)) in
      record {
        after = record l {
          vos = record { las = z.las_after; version = y.transaction.vos.version + 1 };
        };
        runs = ground (arith, y.runs, z.run);
        version_after = omega (arith, y.version_same);
        counts = z.counts;
      }

  -- What the last transaction finds.
  pub run-counted :
      (attempts fuel : ℕ) (l : Librarius S) (pages : List Page) (v copies : ℕ)
      → CountsTo l pages v copies
      → copies + 1 < fuel
      → (run (suc attempts) (counted fuel) l).0 ≡ ok v
  unfolding run run_once finish counted new_transaction commit read
  run-counted attempts fuel l pages v copies x enough =
      let got =
        Stocked-read arr k base root_size c l.vos l.root pages x.newest x.others fuel x.stocked
          (omega (arith, x.count, enough)) in
      let value : as_usize x.newest.found.userdata ≡ v =
        ap as_usize x.value ∙ as_usize-le_bytes v x.in_range in
      ground (arith, x.rooted, got, as_usize-fits x.newest.found.userdata v x.value, value)
