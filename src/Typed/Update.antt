-- ===== src/Typed/Update.antt =====
-- An object is written at its type and the transaction commits: what is read at the type before and
-- after.
use librarius.Prelude.{
  ℕ, suc, ◌+◌, ◌≤◌, ◌<◌, ◌≡◌, sym, ap, subst, ◌∙◌, arith, true, List, [], length, take, take-length,
}
use librarius.Error.{Result, ok, Action, ◌>>=◌, ◌>>◌}
use librarius.Source.{Source}
use librarius.Source.Contract.{Addressable}
use librarius.Source.Allocator.{SourceAllocator}
use librarius.Las.Slice.{split_at}
use librarius.Las.MutRef.{LogicalMutRef}
use librarius.Las.Space.{LogicalAddressSpace}
use librarius.Utils.Views.{Layout, assign, any_as_slice, any_from_slice}
use librarius.Vos.Place.{cell}
use librarius.Vos.Version.Words.{direct_space}
use librarius.Vos.Object.{total}
use librarius.Vos.Reader.History.{Copy, visible}
use librarius.Tx.{Transaction, on_las, commit, read}
use librarius.Tx.Write.{Writable, Made, written_to, write-Made}
use librarius.Tx.Write.Commit.{Made-Filled, Made-later, Made-earlier}
use librarius.Typed.{
  Persistent, layout_of, PointerRef, from_raw_ref, as_raw, write_typed, read_typed,
}

-- A view of the bytes of a value is the value.
pub any_from_slice-any_as_slice :
    {T : Type 0} ⦃layout : Layout T⦄ (x : T) → any_from_slice (any_as_slice x) ≡ ok x
unfolding any_from_slice any_as_slice
any_from_slice-any_as_slice ⦃layout⦄ x =
    let width = layout.length-to_bytes x in
    let all : take layout.size_of (layout.to_bytes x) ≡ layout.to_bytes x =
      ap (λ n. take n (layout.to_bytes x)) (sym width) ∙ take-length (layout.to_bytes x) in
    ground (arith, width, all, layout.from_bytes-to_bytes x)

module _ {T S : Type 0} ⦃persistent : Persistent T⦄ ⦃src : Source S⦄ where
  -- The source's `*tx.write_typed(pointer)? = x`, and the commit at the end of `run_once`.
  unfoldable pub update : ℕ → PointerRef T → T → Action (Transaction S) (Unit {0})
  update fuel pointer x = do view ← write_typed fuel pointer; on_las (assign view x); commit

  pub read_typed_lem :
      (u : Transaction S) (fuel c : ℕ) (x : T)
      → (read fuel (cell c) persistent.size u).0 ≡ ok (any_as_slice x)
      → (read_typed fuel (from_raw_ref (cell c)) u).0 ≡ ok x
  unfolding read_typed from_raw_ref
  read_typed_lem u fuel c x h = ground (arith, h, any_from_slice-any_as_slice x)

  pub read_typed_same :
      (u v : Transaction S) (fuel c : ℕ)
      → (read fuel (cell c) persistent.size u).0 ≡ (read fuel (cell c) persistent.size v).0
      → (read_typed {T = T} fuel (from_raw_ref (cell c)) u).0
        ≡ (read_typed {T = T} fuel (from_raw_ref (cell c)) v).0
  unfolding read_typed from_raw_ref
  read_typed_same u v fuel c h = ground (arith, h)

module _ {T S : Type 0} ⦃persistent : Persistent T⦄ ⦃src : Source S⦄ (arr : Addressable S)
    (k base : ℕ) (a : SourceAllocator S) (t : Transaction S) (m : LogicalMutRef) (q p c : ℕ)
    (h : Copy) (older : List Copy) (w : Writable arr k base a t m persistent.size q p c h older)
    (whole : persistent.layout.size_of ≡ total persistent.size)
    (small : t.vos.version + 1 < direct_space) (unread : t.readset ≡ [])
    (shown : visible t.snapshot h ≡ true) (x : T) (u : Transaction S) (fuel : ℕ)
    (enough : length older + 1 < fuel) where
  -- The transaction just before its commit.
  record Assigned : Type 0 where
    las_after : LogicalAddressSpace S
    made : Made arr k base a t m persistent.size q p c las_after (any_as_slice x)
    runs :
        update (suc fuel) (from_raw_ref (cell c)) x t
        ≡ commit (written_to arr k base a t m persistent.size q p c las_after)

  assigned : Assigned
  unfolding update write_typed assign from_raw_ref any_as_slice as_raw split_at
  assigned =
      let (las', run, made) =
        write-Made arr k base a t m persistent.size q p c h older w fuel shown in
      let width = persistent.layout.length-to_bytes x in
      let (f, made') =
        Made-Filled arr k base a t m persistent.size q p c h older w las' h.found.userdata
          (any_as_slice x) made (width ∙ whole) in
      record {
        las_after = f.las_after;
        made = made';
        runs = ground (arith, run, f.run, whole, width);
      }

  -- For a transaction that can write an object that is not empty (its version slot holds 0, its
  -- active page has room for a copy, the pointer and the copies of the object are in memory apart
  -- from both, and the address it holds, the slot and the new copy are below 2^54), whose snapshot
  -- sees the newest copy, at a type whose bytes fill the user's part, with nothing in its read set
  -- and the next count below 2^63: the assignment of a value through write_typed and then the
  -- commit succeed, and a transaction whose snapshot is above the count from before reads that
  -- value with read_typed, given fuel for the copies.
  pub update-read_typed :
      t.vos.version < u.snapshot
      → ((update (suc fuel) (from_raw_ref (cell c)) x t).0 ≡ ok tt)
        × ((read_typed
              (suc fuel)
              (from_raw_ref (cell c))
              (record u { vos = (update (suc fuel) (from_raw_ref (cell c)) x t).1.vos })).0
            ≡ ok x)
  update-read_typed late =
      let s = assigned in
      let (committed, there) =
        Made-later arr k base a t m persistent.size q p c h older w s.las_after (any_as_slice x)
          s.made small unread u (suc fuel) (omega (arith, enough)) late in
      subst
        (λ (y : Result (Unit {0}) × Transaction S).
          (y.0 ≡ ok tt)
          × ((read_typed (suc fuel) (from_raw_ref (cell c)) (record u { vos = y.1.vos })).0 ≡ ok x))
        (sym s.runs) (committed, read_typed_lem (record u { vos = _ }) (suc fuel) c x there)

  -- For a transaction that can write an object that is not empty (its version slot holds 0, its
  -- active page has room for a copy, the pointer and the copies of the object are in memory apart
  -- from both, and the address it holds, the slot and the new copy are below 2^54), whose snapshot
  -- sees the newest copy, at a type whose bytes fill the user's part, with nothing in its read set
  -- and the next count below 2^63: the assignment of a value through write_typed and then the
  -- commit succeed, and a transaction whose snapshot is at most the count from before reads with
  -- read_typed what it would have read before the write, given fuel for the copies.
  pub update-read_typed_before :
      u.snapshot ≤ t.vos.version
      → ((update (suc fuel) (from_raw_ref (cell c)) x t).0 ≡ ok tt)
        × ((read_typed {T = T}
              (suc fuel)
              (from_raw_ref (cell c))
              (record u { vos = (update (suc fuel) (from_raw_ref (cell c)) x t).1.vos })).0
            ≡ (read_typed {T = T} (suc fuel) (from_raw_ref (cell c)) (record u { vos = t.vos })).0)
  update-read_typed_before old =
      let s = assigned in
      let (committed, there) =
        Made-earlier arr k base a t m persistent.size q p c h older w s.las_after (any_as_slice x)
          s.made small unread u (suc fuel) (omega (arith, enough)) old in
      subst
        (λ (y : Result (Unit {0}) × Transaction S).
          (y.0 ≡ ok tt)
          × ((read_typed {T = T} (suc fuel) (from_raw_ref (cell c)) (record u { vos = y.1.vos })).0
              ≡ (read_typed {T = T} (suc fuel) (from_raw_ref (cell c))
                  (record u { vos = t.vos })).0))
        (sym s.runs)
        (
          committed,
          read_typed_same (record u { vos = _ }) (record u { vos = t.vos }) (suc fuel) c there,
        )
