-- ===== src/Tx/Stocked.antt =====
-- A database with an object at a cell and free pages: everything in memory, and apart. A transaction
-- that starts on it can write the object.
pub mod Ready
pub mod Copies
pub mod Pending
pub mod Advance
pub mod Blocked
pub mod Undone
pub mod Seen
use librarius.Prelude.{
  ℕ, suc, ◌+◌, ◌^◌, ◌≤◌, ◌<◌, ◌≡◌, refl, arith, true, none, List, [], ◌∷◌, All, inl, inr,
}
use librarius.Source.{Source, Page}
use librarius.Source.Contract.{Addressable}
use librarius.Source.Allocator.{SourceAllocator}
use librarius.Las.Slice.{LogicalSlice, new_slice}
use librarius.Las.Space.{LogicalAddressSpace}
use librarius.Las.Space.Memory.{Disjoint}
use librarius.Las.Space.Stock.{Stock}
use librarius.Las.Space.Fresh.{page_slice, whole_page}
use librarius.Vos.Pointer.Words.{address_space}
use librarius.Vos.Place.{Place, cell, local, load}
use librarius.Vos.Place.Words.{Word, load_lem}
use librarius.Vos.Version.Slot.{indirect}
use librarius.Vos.Object.{ObjectSize, total, object_header_size}
use librarius.Vos.Alloc.Fresh.{TwoPages, alloc_object-fresh}
use librarius.Vos.Reader.History.{Copy, visible, read_object-first}
use librarius.Vos.Reader.Chain.{Chain-History}
use librarius.Vos.Reader.Chain.Along.{Along-map}
use librarius.Vos.Reader.Chain.Frame.{Frame, Frame-Word, Avoids}
use librarius.Vos.Reader.Chain.Publish.{Near}
use librarius.Vos.Reader.Chain.Moved.{Tracked, Tracked-Frame}
use librarius.Vos.Reader.Chain.Bytes.{Chain-length}
use librarius.Vos.Store.{Versioned}
use librarius.Tx.{Transaction, new_transaction, write_version, write}
use librarius.Tx.Fresh.{
  made, slot_address, after_page, allocator_left, prepared, next-IsTight, page_run, slot_there,
  page_frame, object_region, slot_apart,
}
use librarius.Tx.Write.{Writable, Kept}

module _ {S : Type 0} ⦃src : Source S⦄ (arr : Addressable S) (k base : ℕ) (size : ObjectSize)
    (c : ℕ) where
  -- Free pages that have room for an object of the size, lie below 2^54 and share no byte.
  abbrev pub Usable : List Page → Type 0
  Usable [] = Unit
  Usable (p ∷ pages) =
      (total size + object_header_size ≤ p.len)
      × (p.offset + base + p.len < address_space)
      × All (λ q. Disjoint (page_slice arr k base p) (page_slice arr k base q)) pages
      × Usable pages

  -- A slice apart from the cell and from the free pages.
  abbrev pub Clear : List Page → LogicalSlice → Type 0
  Clear pages u = Disjoint (new_slice c 8) u × All (λ p. Disjoint (page_slice arr k base p) u) pages

  abbrev pub ClearSlot : List Page → ℕ → Type 0
  ClearSlot pages q = Clear pages (new_slice q 8)

  -- The cell points to the copies of the object, the newest of them committed.
  pub record Stocked (vos : Versioned S) (pages : List Page) (h : Copy) (older : List Copy)
      : Type 0 where
    pub pointer : ℕ
    pub pointed : Word arr k vos.las c pointer
    pub pointer_placed : pointer < address_space
    pub copies :
        Tracked arr k (Clear pages) (ClearSlot pages) vos.las size (local pointer) (h ∷ older)
    pub cell_apart : All (λ p. Disjoint (page_slice arr k base p) (new_slice c 8)) pages
    pub committed : (0 < h.number) × (h.number ≤ vos.version)
    pub stock : Stock arr k base vos.las pages
    pub usable : Usable pages

  -- The sizes fit their fields.
  abbrev pub Widths : Type 0
  Widths = (size.pointers < 2 ^ 32) × (size.user_data < 2 ^ 32) × (0 < total size)

  -- A part of a page stands apart from what the page stands apart from.
  pub part_apart :
      (s t u : LogicalSlice)
      → s.offset ≤ t.offset
      → t.offset + t.len ≤ s.offset + s.len
      → Disjoint s u
      → Disjoint t u
  part_apart s t u low high (inl h) = inl (omega (arith, h, high))
  part_apart s t u low high (inr h) = inr (omega (arith, h, low))

  pub Usable-TwoPages :
      (las : LogicalAddressSpace S) (page next : Page) (rest : List Page)
      → Stock arr k base las (page ∷ next ∷ rest)
      → Usable (page ∷ next ∷ rest)
      → TwoPages arr k base las page next rest
  Usable-TwoPages las page next rest stock usable = record {
    stock = stock;
    apart = elim (usable.2.0) [ inl e ↦ inl (omega (arith, e)) | inr e ↦ inr (omega (arith, e)) ];
    room = omega (arith, usable.0);
    low = usable.1;
  }
