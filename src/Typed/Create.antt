-- ===== src/Typed/Create.antt =====
-- An object is allocated at its type and the transaction commits: what is read at the type after.
use librarius.Prelude.{
  ℕ, suc, ◌+◌, ◌^◌, ◌≤◌, ◌<◌, ◌≡◌, refl, sym, ap, subst, ◌∙◌, arith, some, List, [], ◌∷◌,
}
use librarius.Error.{Result, ok, Action, pure, ◌>>=◌, ◌>>◌}
use librarius.Source.{Source}
use librarius.Source.Contract.{Addressable}
use librarius.Source.Allocator.{SourceAllocator}
use librarius.Las.Slice.{LogicalSlice, new_slice, split_at}
use librarius.Las.MutRef.{LogicalMutRef}
use librarius.Las.MutRef.Pieces.{IsTight}
use librarius.Las.Space.{LogicalAddressSpace}
use librarius.Las.Space.Memory.{Disjoint}
use librarius.Las.Space.Region.{Region}
use librarius.Utils.Views.{assign, any_as_slice}
use librarius.Vos.Pointer.{is_some}
use librarius.Vos.Pointer.Words.{address_space}
use librarius.Vos.Place.{local}
use librarius.Vos.Place.Words.{Word}
use librarius.Vos.Version.Slot.{indirect}
use librarius.Vos.Version.Words.{direct_space}
use librarius.Vos.Object.{total, object_header_size}
use librarius.Vos.Alloc.{alloc_new}
use librarius.Vos.Alloc.Copied.{Copied, alloc_object-Copied, rest_of}
use librarius.Vos.Reader.History.{Copy}
use librarius.Vos.Reader.Chain.{Chain, last}
use librarius.Vos.Reader.Chain.Frame.{Frame-Word}
use librarius.Vos.Reader.Chain.Publish.{HeadIs, AllBeside}
use librarius.Vos.Reader.Chain.Prepend.{Placed, Placed-Chain, own_copy}
use librarius.Tx.{Transaction, write_version, alloc, commit, read}
use librarius.Tx.Validate.{Versions, done}
use librarius.Tx.Commit.{commit-publishes}
use librarius.Tx.Snapshot.{commit-visible}
use librarius.Tx.Write.{objects, Disjoint-symm}
use librarius.Tx.Write.Seen.{userdata_of, read_lem}
use librarius.Typed.{
  Persistent, layout_of, PersistentPointer, from_raw, from_raw_ref, alloc_typed, read_typed,
}
use librarius.Typed.Update.{any_from_slice-any_as_slice}

module _ {T S : Type 0} ⦃persistent : Persistent T⦄ ⦃src : Source S⦄ where
  -- A call of `alloc_typed`, and the commit at the end of `run_once`.
  unfoldable pub create : (Unit {0} → T) → Action (Transaction S) (PersistentPointer T)
  create f = do pointer ← alloc_typed f; commit; pure pointer

  create_lem :
      (f : Unit {0} → T) (t t' : Transaction S) (pointer : PersistentPointer T)
      → alloc_typed f t ≡ (ok pointer, t')
      → (commit t').0 ≡ ok tt
      → create f t ≡ (ok pointer, (commit t').1)
  unfolding create
  create_lem f t t' pointer run committed = ground (arith, run, committed)

  read_typed_local :
      (u : Transaction S) (fuel p : ℕ) (x : T)
      → (read fuel (local p) persistent.size u).0 ≡ ok (any_as_slice x)
      → (read_typed fuel (from_raw_ref (local p)) u).0 ≡ ok x
  unfolding read_typed from_raw_ref
  read_typed_local u fuel p x h = ground (arith, h, any_from_slice-any_as_slice x)

module _ {T S : Type 0} ⦃persistent : Persistent T⦄ ⦃src : Source S⦄ (arr : Addressable S)
    (k base : ℕ) (a : SourceAllocator S) (t : Transaction S) (m : LogicalMutRef) (q : ℕ)
    (begun : t.version ≡ some (indirect q)) (slot : Word arr k t.vos.las q 0)
    (slot_placed : q < address_space)
    (copy_placed : m.slice.offset + object_header_size < address_space)
    (widths : (persistent.size.pointers < 2 ^ 32)
      × (persistent.size.user_data < 2 ^ 32)
      × (0 < total persistent.size))
    (whole : persistent.layout.size_of ≡ total persistent.size) (active : t.object_active ≡ some m)
    (tight : IsTight m) (fits : total persistent.size + object_header_size ≤ m.slice.len)
    (region : Region arr t.vos.las
      (new_slice m.slice.offset (total persistent.size + object_header_size))
      k
      base
      a)
    (slot_apart : Disjoint
      (new_slice m.slice.offset (total persistent.size + object_header_size))
      (new_slice q 8))
    (unread : t.readset ≡ []) (small : t.vos.version + 1 < direct_space) (f : Unit {0} → T)
    (u : Transaction S) (fuel : ℕ) where
  abbrev new_object : LogicalSlice
  new_object = new_slice m.slice.offset (total persistent.size + object_header_size)

  abbrev pub after_alloc : LogicalAddressSpace S → Transaction S
  after_alloc las' = record t {
    vos = record (t.vos) { las = las' };
    object_active = some (rest_of m (total persistent.size + object_header_size));
  }

  pub copied :
      Copied arr k base a (objects t) m persistent.size (indirect q) 0 (any_as_slice (f tt))
  unfolding any_as_slice
  copied =
      alloc_object-Copied arr k base a (objects t) m persistent.size (indirect q) 0
        (any_as_slice (f tt)) active tight fits region widths.2
        (persistent.layout.length-to_bytes (f tt) ∙ whole)

  pub alloc_run :
      alloc_typed f t
      ≡ (ok (from_raw (m.slice.offset + object_header_size)), after_alloc copied.las_after)
  unfolding alloc_typed alloc alloc_new write_version assign split_at any_as_slice
  alloc_run = ground (
    arith,
    begun,
    copied.allocated,
    copied.filled,
    whole,
    persistent.layout.length-to_bytes (f tt),
  )

  made :
      Placed arr k copied.las_after m.slice.offset persistent.size q 0
        (local (m.slice.offset + object_header_size))
        (any_as_slice (f tt))
  made = record {
    base = base;
    allocator = copied.allocator_after;
    region = copied.region;
    held = record {
      allocator = copied.allocator_after;
      resolves = copied.region.whole;
      bytes_there = copied.bytes_there;
    };
    pointed = refl;
    slot =
        Frame-Word arr k (Disjoint new_object) t.vos.las copied.las_after q 0 copied.frame
          slot_apart slot;
    pointer_apart = tt;
    slot_apart = Disjoint-symm new_object (new_slice q 8) slot_apart;
  }

  abbrev new_copies : List Copy
  new_copies =
      own_copy arr k copied.las_after m.slice.offset persistent.size q 0
        (local (m.slice.offset + object_header_size)) (any_as_slice (f tt))
      ∷ []

  new_chain :
      (chain : Chain arr k copied.las_after persistent.size
        (local (m.slice.offset + object_header_size))
        new_copies)
      × HeadIs arr k q chain
      × AllBeside arr k q chain
  unfolding is_some
  new_chain =
      Placed-Chain arr k copied.las_after m.slice.offset persistent.size q 0
        (local (m.slice.offset + object_header_size)) (any_as_slice (f tt)) made
        (copy_placed, widths.0, widths.1, slot_placed, omega arith, widths.2) []
        (last 0 refl refl, tt)

  -- For a transaction whose version slot holds 0, whose active page has room for an object and
  -- whose read set is empty, at a type whose bytes fill the user's part, with the next count below
  -- 2^63: alloc_typed and then the commit succeed with a pointer behind the header at the page's
  -- free start, and a transaction whose snapshot is above the count from before reads the value of
  -- the closure through that pointer with read_typed.
  pub create-read_typed :
      t.vos.version < u.snapshot
      → ((create f t).0 ≡ ok (from_raw (m.slice.offset + object_header_size)))
        × ((read_typed
              (suc (suc fuel))
              (from_raw_ref (local (m.slice.offset + object_header_size)))
              (record u { vos = (create f t).1.vos })).0
            ≡ ok (f tt))
  unfolding userdata_of
  create-read_typed late =
      let (chain, own, beside) = new_chain in
      let t' = after_alloc copied.las_after in
      let (committed, found) =
        commit-visible arr k t' q [] begun small slot_placed made.slot
          (subst (λ ps. Versions copied.las_after ps []) (sym unread) done) refl persistent.size
          (local (m.slice.offset + object_header_size)) u.snapshot (suc (suc fuel)) _ _ chain beside
          own (omega arith) late in
      subst
        (λ (y : Result (PersistentPointer T) × Transaction S).
          (y.0 ≡ ok (from_raw (m.slice.offset + object_header_size)))
          × ((read_typed (suc (suc fuel))
                (from_raw_ref (local (m.slice.offset + object_header_size)))
                (record u { vos = y.1.vos })).0
              ≡ ok (f tt)))
        (sym
          (create_lem f t t' (from_raw (m.slice.offset + object_header_size)) alloc_run committed))
        (
          refl,
          read_typed_local (record u { vos = (commit t').1.vos }) (suc (suc fuel))
              (m.slice.offset + object_header_size) (f tt)
              (read_lem (record u { vos = (commit t').1.vos }) (suc (suc fuel))
                (local (m.slice.offset + object_header_size)) persistent.size _ found),
        )

  -- The count of versions then.
  pub create-counted : (create f t).1.vos.version ≡ t.vos.version + 1
  create-counted =
      let t' = after_alloc copied.las_after in
      let (las', run, number, stored) =
        commit-publishes arr k t' q [] begun small slot_placed made.slot
          (subst (λ ps. Versions copied.las_after ps []) (sym unread) done) refl in
      ap (λ (y : Result (PersistentPointer T) × Transaction S). y.1.vos.version)
        (create_lem f t t' (from_raw (m.slice.offset + object_header_size)) alloc_run
          (ap (λ (y : Result (Unit {0}) × Transaction S). y.0) run))
      ∙ ap (λ (y : Result (Unit {0}) × Transaction S). y.1.vos.version) run
