-- ===== src/Tx/Stocked/Copies.antt =====
-- The copies of the object after a transaction on the database has written it, and its new memory.
use librarius.Prelude.{
  ℕ, suc, ◌+◌, ◌-◌, ◌≤◌, ◌≡◌, refl, sym, ap, subst, ◌∙◌, arith, List, ◌∷◌, length, drop, drop-slice,
  same_slice, All-map, inl, inr,
}
use librarius.Error.{ok}
use librarius.Source.{Source, Page}
use librarius.Source.Contract.{Addressable}
use librarius.Las.Slice.{LogicalSlice, new_slice}
use librarius.Las.Space.{LogicalAddressSpace, read}
use librarius.Las.Space.Memory.{Disjoint, Holds, read-Holds}
use librarius.Las.Space.Region.{Region-Holds, Holds-Region}
use librarius.Las.Space.Fresh.{page_slice, whole_page}
use librarius.Vos.Place.{Place, cell, local}
use librarius.Source.Allocator.{SourceAllocator}
use librarius.Vos.Version.Slot.{indirect}
use librarius.Vos.Object.{ObjectSize, total, object_header_size, other_offset, new_header}
use librarius.Vos.Reader.History.{Copy}
use librarius.Vos.Reader.Chain.{Chain}
use librarius.Vos.Reader.Chain.Along.{Along, Along-map}
use librarius.Vos.Reader.Chain.Publish.{HeadIs}
use librarius.Vos.Reader.Chain.Moved.{moved, Tracked, Tracked-Frame}
use librarius.Vos.Reader.Chain.Prepend.{Placed, Placed-Along}
use librarius.Vos.Reader.Chain.Bytes.{drop-header_bytes}
use librarius.Vos.Store.{Versioned}
use librarius.Tx.{Transaction}
use librarius.Tx.Write.{Made, written_to, Disjoint-symm}
use librarius.Tx.Stocked.Pending
use librarius.Tx.Stocked.{Stocked, Clear, ClearSlot, Widths, part_apart}
use librarius.Tx.Stocked.Ready.{
  ready, left, slot, las1, in_page, in_next, copies_then, copies_avoid, Untouched, ready-Writable,
}

module _ {S : Type 0} ⦃src : Source S⦄ (arr : Addressable S) (k base : ℕ) (size : ObjectSize)
    (c : ℕ) (vos : Versioned S) (root : Place) (page next : Page) (rest : List Page) (h : Copy)
    (older : List Copy) (x : Stocked arr k base size c vos (page ∷ next ∷ rest) h older)
    (widths : Widths arr k base size c) where
  abbrev pub writer : Transaction S
  writer = ready arr k base size c vos root page next rest h older x widths

  abbrev pub own_slot : ℕ
  own_slot = slot arr k base size c vos root page next rest h older x widths

  abbrev pub start : ℕ
  start = next.offset + base

  abbrev pub las_ready : LogicalAddressSpace S
  las_ready = las1 arr k base size c vos root page next rest h older x widths

  abbrev pub source_left : SourceAllocator S
  source_left = left arr k base size c vos root page next rest h older x widths

  abbrev pub memory : LogicalSlice
  memory = new_slice (start + object_header_size) (total size)

  abbrev pub IsMade : LogicalAddressSpace S → List ℕ → Type 0
  IsMade = Made arr k base source_left writer (whole_page arr k base next) size own_slot x.pointer c

  abbrev pub after_write : LogicalAddressSpace S → Transaction S
  after_write =
      written_to arr k base source_left writer (whole_page arr k base next) size own_slot x.pointer
        c

  -- The memory of the new copy, as its owner reads it.
  pub Made-memory :
      (las : LogicalAddressSpace S) (userdata : List ℕ)
      → IsMade las userdata
      → read memory las ≡ (ok userdata, las)
  Made-memory las userdata made =
      let p = made.placed in
      let content = arr.content (p.allocator.source) in
      let above = p.region.whole.placed.above in
      let hdr = new_header size (indirect own_slot) x.pointer in
      read-Holds arr las memory k p.base userdata (
        subst (Holds arr las memory k p.base)
          (same_slice content (start + object_header_size - p.base)
              (start - p.base + object_header_size) (total size)
              (total size + object_header_size - object_header_size) (omega (arith, above))
              (omega arith)
            ∙ sym (
                drop-slice content (start - p.base) object_header_size
                  (total size + object_header_size) (omega arith))
            ∙ ap (drop object_header_size) (
                Holds-Region arr las (new_slice start (total size + object_header_size)) k p.base
                  p.allocator _ p.region p.held)
            ∙ drop-header_bytes hdr userdata)
          (Region-Holds arr las (new_slice start (total size + object_header_size)) k p.base
            p.allocator p.region memory (omega arith, omega arith, widths.2)))

  -- What the new copy and the words around it keep.
  abbrev pub Free : LogicalSlice → Type 0
  Free = Pending.Free arr k base size c own_slot rest

  abbrev pub FreeSlot : ℕ → Type 0
  FreeSlot = Pending.FreeSlot arr k base size c own_slot rest

  own_Free :
      (u : LogicalSlice)
      → start ≤ u.offset
      → u.offset + u.len ≤ start + (total size + object_header_size)
      → Free u
  own_Free u low high =
      let own = new_slice start (total size + object_header_size) in
      let apart : (s : LogicalSlice) → Disjoint (page_slice arr k base next) s → Disjoint s u =
        λ s e. Disjoint-symm u s (
          part_apart arr k base size c own u s low high
            (in_next arr k base size c vos root page next rest h older x widths s e)) in
      (
        (
          apart (new_slice c 8) x.cell_apart.1.0,
          All-map (λ p. apart (page_slice arr k base p)) rest x.usable.3.2,
        ),
        Disjoint-symm u (new_slice own_slot 8) (
            part_apart arr k base size c (page_slice arr k base next) u (new_slice own_slot 8)
              (omega (arith, low)) (omega (arith, high, x.usable.3.0))
              (Disjoint-symm (new_slice own_slot 8) (page_slice arr k base next) (
                in_page arr k base size c vos root page next rest h older x widths
                  (page_slice arr k base next) x.usable.2.0))),
      )

  pub slot_Free : FreeSlot own_slot
  slot_Free =
      let apart : (s : LogicalSlice)
          → Disjoint (page_slice arr k base page) s
          → Disjoint s (new_slice own_slot 8) =
        λ s e.
          Disjoint-symm (new_slice own_slot 8) s
            (in_page arr k base size c vos root page next rest h older x widths s e) in
      (
        (
          apart (new_slice c 8) x.cell_apart.0,
          All-map (λ p. apart (page_slice arr k base p)) rest x.usable.2.1,
        ),
        inl refl,
      )

  -- The new copy in front of the others, by the pointer to it.
  pub copies_made :
      (las : LogicalAddressSpace S) (userdata : List ℕ)
      → IsMade las userdata
      → (copies : List Copy) × (chain : Chain arr k las size (local (start + object_header_size)) (
          record {
            number = 0;
            found = record {
              userdata = userdata;
              place = local (start + object_header_size);
              header = start;
            };
          }
          ∷ copies))
        × (length copies ≡ suc (length older))
        × HeadIs arr k own_slot chain
        × Along arr k Free FreeSlot chain
  copies_made las userdata made =
      let place = local (start + object_header_size) in
      let w = ready-Writable arr k base size c vos root page next rest h older x widths in
      let all = Clear arr k base size c (page ∷ next ∷ rest) in
      let chain = copies_then arr k base size c vos root page next rest h older x widths in
      let p = made.placed in
      let placed : Placed arr k las start size own_slot x.pointer place userdata = record {
        base = p.base;
        allocator = p.allocator;
        region = p.region;
        held = p.held;
        pointed = refl;
        slot = p.slot;
        pointer_apart = tt;
        slot_apart = p.slot_apart;
      } in
      let free : (u : LogicalSlice) → all u → Free u = λ u e. (
        (e.0, e.1.1.1),
        in_page arr k base size c vos root page next rest h older x widths u e.1.0,
      ) in
      let tracked : Tracked arr k Free FreeSlot las size (local x.pointer) (h ∷ older) =
        Tracked-Frame arr k Free FreeSlot
          (Untouched arr k base size c vos root page next rest h older x widths) las_ready las size
          (local x.pointer) (h ∷ older) made.frame
          (
            chain.0,
            Along-map arr k all Free (ClearSlot arr k base size c (page ∷ next ∷ rest)) FreeSlot
                las_ready size (local x.pointer) (h ∷ older) chain.0 free
                (λ r e. ((free (new_slice r 8) e).0, inr (free (new_slice r 8) e).1)) chain.1,
          )
          (copies_avoid arr k base size c vos root page next rest h older x widths) in
      let (longer, own, along) =
        Placed-Along arr k las start size own_slot x.pointer place userdata placed
          (
            w.copy_placed,
            widths.0,
            widths.1,
            w.slot_placed,
            omega (arith, w.pointer_placed),
            widths.2,
          )
          Free FreeSlot (h ∷ older) tracked tt
          (own_Free (new_slice start (total size + object_header_size)) (omega arith) (omega arith))
          (own_Free (new_slice (start + other_offset) 8) (omega arith) (omega arith)) slot_Free in
      (moved (cell (start + other_offset)) (h ∷ older), longer, refl, own, along)
