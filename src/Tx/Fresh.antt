-- ===== src/Tx/Fresh.antt =====
-- A transaction that starts, and what it has made when its first object has a page: its version slot
-- in one fresh page, and the next page as the active one of its objects.
use librarius.Prelude.{
  ℕ, ◌+◌, ◌-◌, ◌^◌, ◌≤◌, ◌<◌, ◌≡◌, refl, ap, ◌∙◌, arith, some, List, [], slice, le_value,
  le_value-le_bytes, inl, inr,
}
use librarius.Error.{ok}
use librarius.Source.{Source, Page}
use librarius.Source.Contract.{Addressable}
use librarius.Source.Allocator.{SourceAllocator}
use librarius.Las.Slice.{LogicalSlice, new_slice}
use librarius.Las.MutRef.Pieces.{IsTight}
use librarius.Las.Space.{LogicalAddressSpace}
use librarius.Las.Space
use librarius.Las.Space.Memory.{Disjoint}
use librarius.Las.Space.Region.{Region, Region-Holds, Region-Within}
use librarius.Las.Space.Stock.{Stock}
use librarius.Las.Space.Stock.Taken.{alloc-Stock, after_alloc-Stock, after_alloc-Holds}
use librarius.Las.Space.Fresh.{page_slice, whole_page, popped, after_alloc, after_alloc-Region}
use librarius.Vos.Place.{Place}
use librarius.Vos.Place.Words.{Word}
use librarius.Vos.Version.{version_size}
use librarius.Vos.Version.Slot.{indirect}
use librarius.Vos.Object.{ObjectSize, total, object_header_size}
use librarius.Vos.Alloc.Copied.{rest_of}
use librarius.Vos.Alloc.Fresh.{TwoPages, own_slot, SlotMade, new_indirect_version-fresh}
use librarius.Vos.Reader.Chain.Frame.{Frame}
use librarius.Vos.Store.{Versioned}
use librarius.Tx.{Transaction}

module _ {S : Type 0} ⦃src : Source S⦄ (arr : Addressable S) (k base : ℕ) (vos : Versioned S)
    (root : Place) (page next : Page) (rest : List Page)
    (pages : TwoPages arr k base vos.las page next rest)
    (bounded : next.offset + base + next.len < 2 ^ 64) where
  pub made : SlotMade arr k base vos.las page next rest
  made = new_indirect_version-fresh arr k base vos.las page next rest pages

  abbrev pub slot_address : ℕ
  slot_address = own_slot arr k base vos.las page next rest

  abbrev pub after_page : LogicalAddressSpace S
  after_page = after_alloc arr k base made.las_after made.stock.allocator rest

  abbrev pub allocator_left : SourceAllocator S
  allocator_left = popped arr k base made.stock.allocator rest

  -- The transaction with its slot and its page.
  abbrev pub prepared : Transaction S
  prepared = record {
    vos = record { las = after_page; version = vos.version };
    root = root;
    object_active = some (whole_page arr k base next);
    log_active = some (rest_of (whole_page arr k base page) version_size);
    snapshot = vos.version;
    version = some (indirect slot_address);
    writeset = [];
    readset = [];
  }

  pub next-IsTight : IsTight (whole_page arr k base next)
  next-IsTight = record { same_offset = refl; same_len = refl; addressed = bounded }

  pub page_run : Space.alloc made.las_after ≡ (ok (whole_page arr k base next), after_page)
  page_run = alloc-Stock arr k base made.las_after next rest made.stock

  pub slot_there : Word arr k after_page slot_address 0
  slot_there =
      let start : page.offset + base - base ≡ page.offset = omega arith in
      let content = arr.content (made.stock.allocator.source) in
      record {
        base = base;
        bytes = slice content (page.offset + base - base) 8;
        there =
            Region-Holds arr after_page (page_slice arr k base page) k base allocator_left
              (after_alloc-Region arr k base made.las_after made.stock.allocator rest
                (page_slice arr k base page) made.first)
              (new_slice (page.offset + base) 8)
              (omega arith, omega (arith, pages.room), omega arith);
        value =
            ap (λ o. le_value (slice content o 8)) start
            ∙ ap le_value made.content
            ∙ le_value-le_bytes 8 0 (omega arith);
      }

  -- What stands apart from the slot is kept, and the rest of the free pages stay.
  pub page_frame : Frame arr k (Disjoint (new_slice slot_address 8)) vos.las after_page
  page_frame = λ u b bytes apart held.
      after_alloc-Holds arr k base made.las_after next rest made.stock u b bytes
        (made.frame u b bytes apart held)

  pub stock_left : Stock arr k base after_page rest
  stock_left = after_alloc-Stock arr k base made.las_after next rest made.stock

  -- The first object of the page.
  module _ (size : ObjectSize) (fits : total size + object_header_size ≤ next.len) where
    abbrev pub first_object : LogicalSlice
    first_object = new_slice (next.offset + base) (total size + object_header_size)

    pub object_region : Region arr after_page first_object k base allocator_left
    object_region =
        Region-Within arr after_page (page_slice arr k base next) k base allocator_left
          (after_alloc-Region arr k base made.las_after made.stock.allocator rest
            (page_slice arr k base next) made.stock.regions.0)
          first_object (omega arith, omega (arith, fits), omega arith)

    pub slot_apart : Disjoint first_object (new_slice slot_address 8)
    slot_apart = elim (pages.apart) [
      | inl h ↦ inr (omega (arith, h, pages.room))
      | inr h ↦ inl (omega (arith, h, fits))
    ]
