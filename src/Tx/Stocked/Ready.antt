-- ===== src/Tx/Stocked/Ready.antt =====
-- A transaction that starts on the database, when it has its slot and its page: it can write the
-- object.
use librarius.Prelude.{ℕ, suc, ◌+◌, ◌^◌, ◌<◌, ◌≡◌, refl, arith, true, none, List, ◌∷◌, inl, inr}
use librarius.Source.{Source, Page}
use librarius.Source.Contract.{Addressable}
use librarius.Source.Allocator.{SourceAllocator}
use librarius.Las.Slice.{LogicalSlice, new_slice}
use librarius.Las.Space.{LogicalAddressSpace}
use librarius.Las.Space.Memory.{Disjoint}
use librarius.Las.Space.Fresh.{page_slice, whole_page}
use librarius.Vos.Place.{Place, cell, local, load}
use librarius.Vos.Place.Words.{load_lem}
use librarius.Vos.Version.Slot.{indirect}
use librarius.Vos.Object.{ObjectSize, total, object_header_size}
use librarius.Vos.Alloc.Fresh.{TwoPages, alloc_object-fresh}
use librarius.Vos.Reader.History.{Copy, visible, read_object-first}
use librarius.Vos.Reader.Chain.{Chain-History}
use librarius.Vos.Reader.Chain.Along.{Along-map}
use librarius.Vos.Reader.Chain.Frame.{Frame, Frame-Word, Avoids}
use librarius.Vos.Reader.Chain.Publish.{Near}
use librarius.Vos.Reader.Chain.Moved.{Tracked, Tracked-Frame}
use librarius.Vos.Reader.Chain.Bytes.{Chain-length}
use librarius.Vos.Store.{Versioned}
use librarius.Tx.{Transaction, new_transaction, write_version, write}
use librarius.Tx.Fresh.{
  made, slot_address, after_page, allocator_left, prepared, next-IsTight, page_run, slot_there,
  page_frame, object_region, slot_apart,
}
use librarius.Tx.Write.{Writable, Kept}
use librarius.Tx.Stocked.{Stocked, Clear, ClearSlot, Widths, part_apart, Usable-TwoPages}

module _ {S : Type 0} ⦃src : Source S⦄ (arr : Addressable S) (k base : ℕ) (size : ObjectSize)
    (c : ℕ) where
  module _ (vos : Versioned S) (root : Place) (page next : Page) (rest : List Page) (h : Copy)
      (older : List Copy) (x : Stocked arr k base size c vos (page ∷ next ∷ rest) h older)
      (widths : Widths arr k base size c) where
    pub two_pages : TwoPages arr k base vos.las page next rest
    two_pages = Usable-TwoPages arr k base size c vos.las page next rest x.stock x.usable

    pub bounded : next.offset + base + next.len < 2 ^ 64
    bounded = omega (arith, x.usable.3.1)

    abbrev pub ready : Transaction S
    ready = prepared arr k base vos root page next rest two_pages bounded

    abbrev pub left : SourceAllocator S
    left = allocator_left arr k base vos root page next rest two_pages bounded

    abbrev pub slot : ℕ
    slot = slot_address arr k base vos root page next rest two_pages bounded

    abbrev pub las1 : LogicalAddressSpace S
    las1 = after_page arr k base vos root page next rest two_pages bounded

    frame : Frame arr k (Disjoint (new_slice slot 8)) vos.las las1
    frame = page_frame arr k base vos root page next rest two_pages bounded

    pub in_page :
        (u : LogicalSlice) → Disjoint (page_slice arr k base page) u → Disjoint (new_slice slot 8) u
    in_page u =
        part_apart arr k base size c (page_slice arr k base page) (new_slice slot 8) u (omega arith)
          (omega (arith, x.usable.0))

    pub in_next :
        (u : LogicalSlice)
        → Disjoint (page_slice arr k base next) u
        → Disjoint (new_slice (next.offset + base) (total size + object_header_size)) u
    in_next u =
        part_apart arr k base size c (page_slice arr k base next)
          (new_slice (next.offset + base) (total size + object_header_size)) u (omega arith)
          (omega (arith, x.usable.3.0))

    -- The copies in a space where all that stands apart from the slot is kept.
    copies_kept :
        (las' : LogicalAddressSpace S)
        → Frame arr k (Disjoint (new_slice slot 8)) vos.las las'
        → Tracked arr k
            (Clear arr k base size c (page ∷ next ∷ rest))
            (ClearSlot arr k base size c (page ∷ next ∷ rest))
            las'
            size
            (local x.pointer)
            (h ∷ older)
    copies_kept las' kept =
        Tracked-Frame arr k (Clear arr k base size c (page ∷ next ∷ rest))
          (ClearSlot arr k base size c (page ∷ next ∷ rest)) (Disjoint (new_slice slot 8)) vos.las
          las' size (local x.pointer) (h ∷ older) kept x.copies
          (Along-map arr k (Clear arr k base size c (page ∷ next ∷ rest))
            (Disjoint (new_slice slot 8)) (ClearSlot arr k base size c (page ∷ next ∷ rest))
            (λ q. Disjoint (new_slice slot 8) (new_slice q 8)) vos.las size (local x.pointer)
            (h ∷ older) x.copies.0 (λ u e. in_page u e.1.0) (λ q e. in_page (new_slice q 8) e.1.0)
            x.copies.1)

    -- The copies when the transaction has its slot and its page.
    pub copies_then :
        Tracked arr k
          (Clear arr k base size c (page ∷ next ∷ rest))
          (ClearSlot arr k base size c (page ∷ next ∷ rest))
          las1
          size
          (local x.pointer)
          (h ∷ older)
    copies_then = copies_kept las1 frame

    -- What the first write touches.
    abbrev pub Untouched : LogicalSlice → Type 0
    Untouched = Kept arr k base left ready (whole_page arr k base next) size slot x.pointer c

    pub copies_avoid : Avoids arr k Untouched copies_then.0
    copies_avoid =
        let kept : (u : LogicalSlice)
            → Clear arr k base size c (page ∷ next ∷ rest) u
            → Untouched u =
          λ u e. (in_next u e.1.1.0, e.0) in
        Along-map arr k (Clear arr k base size c (page ∷ next ∷ rest)) Untouched
          (ClearSlot arr k base size c (page ∷ next ∷ rest)) (λ q. Untouched (new_slice q 8)) las1
          size (local x.pointer) (h ∷ older) copies_then.0 kept (λ q e. kept (new_slice q 8) e)
          copies_then.1

    pub ready-Writable :
        Writable arr k base left ready (whole_page arr k base next) size slot x.pointer c h older
    ready-Writable =
        let P = Clear arr k base size c (page ∷ next ∷ rest) in
        let V = ClearSlot arr k base size c (page ∷ next ∷ rest) in
        let chain = copies_then.0 in
        record {
          begun = refl;
          slot = slot_there arr k base vos root page next rest two_pages bounded;
          pointer =
              Frame-Word arr k (Disjoint (new_slice slot 8)) vos.las las1 c x.pointer frame
                (in_page (new_slice c 8) x.cell_apart.0) x.pointed;
          slot_placed = omega (arith, x.usable.1);
          pointer_placed = x.pointer_placed;
          copy_placed = omega (arith, x.usable.3);
          pointers_fit = widths.0;
          user_data_fits = widths.1;
          positive = widths.2;
          active = refl;
          tight = next-IsTight arr k base vos root page next rest two_pages bounded;
          fits = x.usable.3.0;
          region =
              object_region arr k base vos root page next rest two_pages bounded size x.usable.3.0;
          apart = in_next (new_slice c 8) x.cell_apart.1.0;
          slot_apart = (
            slot_apart arr k base vos root page next rest two_pages bounded size x.usable.3.0,
            elim (in_page (new_slice c 8) x.cell_apart.0) [ inl e ↦ inr e | inr e ↦ inl e ],
          );
          copies = (
            chain,
            Along-map arr k P (Disjoint (new_slice slot 8)) V (Near arr k slot) las1 size
                (local x.pointer) (h ∷ older) chain (λ u e. in_page u e.1.0)
                (λ q e. inr (in_page (new_slice q 8) e.1.0)) copies_then.1,
          );
          avoids = copies_avoid;
        }

    pub shown : visible vos.version h ≡ true
    shown = ground (arith, x.committed)

    -- The first write of a transaction is that of one that has its slot and its page.
    pub write_same :
        (fuel : ℕ)
        → write (suc fuel) (cell c) size (new_transaction vos root)
          ≡ write (suc fuel) (cell c) size ready
    unfolding write write_version load new_transaction
    write_same fuel =
        let slot_made = made arr k base vos root page next rest two_pages bounded in
        let between = copies_kept slot_made.las_after slot_made.frame in
        let fresh =
          alloc_object-fresh (record { las = slot_made.las_after; active = none })
            (whole_page arr k base next) las1 size (indirect slot) x.pointer refl
            (page_run arr k base vos root page next rest two_pages bounded)
            (next-IsTight arr k base vos root page next rest two_pages bounded) x.usable.3.0 in
        let at_local = (Chain-length arr k vos.las size (local x.pointer) h older x.copies.0).1 in
        ground (
          arith,
          shown,
          at_local,
          fresh,
          slot_made.run,
          load_lem arr k c x.pointer x.pointed,
          load_lem arr k c x.pointer ready-Writable.pointer,
          read_object-first slot_made.las_after size vos.version fuel (local x.pointer) (h ∷ older)
              (Chain-History arr k slot_made.las_after size (local x.pointer) (h ∷ older)
                between.0),
          read_object-first las1 size vos.version fuel (local x.pointer) (h ∷ older)
              (Chain-History arr k las1 size (local x.pointer) (h ∷ older) copies_then.0),
        )
