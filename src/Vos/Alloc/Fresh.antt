-- ===== src/Vos/Alloc/Fresh.antt =====
-- The allocators of objects and of version slots when they take a fresh page.
use librarius.Prelude.{
  ℕ, ◌+◌, ◌-◌, ◌≤◌, ◌<◌, ◌≡◌, refl, sym, ap, subst, ◌∙◌, arith, none, some, List, ◌∷◌, slice, store,
  slice-store_self, le_bytes, length-le_bytes, Bytes, ◌⊎◌,
}
use librarius.Usize.{wrapping_add}
use librarius.Error.{ok}
use librarius.Source.{Source, Page}
use librarius.Source.Contract.{Addressable}
use librarius.Source.Allocator.{SourceAllocator}
use librarius.Las.Slice.{LogicalSlice, new_slice, split_at}
use librarius.Las.MutRef.{LogicalMutRef, try_consume_bytes}
use librarius.Las.MutRef.Pieces.{IsTight}
use librarius.Las.Space.{
  LogicalAddressSpace, get_best_byte_addressable, get_best_source, write_through,
}
use librarius.Las.Space
use librarius.Las.Space.Region.{Region}
use librarius.Las.Space.WroteIn.{WroteIn, write_through-WroteIn}
use librarius.Las.Space.Memory.{Disjoint, Holds}
use librarius.Las.Space.Fresh.{page_slice, whole_page, popped, after_alloc, after_alloc-Region}
use librarius.Las.Space.Stock.{Stock, Region-Stock}
use librarius.Las.Space.Stock.Taken.{alloc-Stock, after_alloc-Stock, after_alloc-Holds}
use librarius.Vos.Pointer.{UntypedPointer}
use librarius.Vos.Pointer.Words.{address_space, new_byte_lem}
use librarius.Vos.Version.{Version, version_size, new_version}
use librarius.Vos.Version.Slot.{indirect}
use librarius.Vos.Version.Words.{new_indirect_sum}
use librarius.Vos.Object.{ObjectSize, total, object_header_size}
use librarius.Vos.Alloc.{
  Allocating, alloc_loop, ensure_active, consumed, generic_alloc, alloc_object,
  new_indirect_version,
}
use librarius.Vos.Alloc.Copied.{rest_of, generic_alloc-rest_of}

module _ {S : Type 0} ⦃src : Source S⦄ where
  -- With no active page, an allocation that fits is one out of a fresh page.
  pub generic_alloc-fresh :
      (s : Allocating S) (m : LogicalMutRef) (las' : LogicalAddressSpace S) (size : ℕ)
      → s.active ≡ none
      → Space.alloc s.las ≡ (ok m, las')
      → IsTight m
      → size ≤ m.slice.len
      → generic_alloc size s ≡ generic_alloc size (record { las = las'; active = some m })
  unfolding generic_alloc alloc_loop ensure_active consumed try_consume_bytes split_at
  generic_alloc-fresh s m las' size active run t fits =
      ground (arith, active, run, t.same_offset, t.same_len, t.addressed)

  pub alloc_object-fresh :
      (s : Allocating S) (m : LogicalMutRef) (las' : LogicalAddressSpace S) (size : ObjectSize)
      (version : Version) (other : UntypedPointer)
      → s.active ≡ none
      → Space.alloc s.las ≡ (ok m, las')
      → IsTight m
      → total size + object_header_size ≤ m.slice.len
      → alloc_object size version other s
        ≡ alloc_object size version other (record { las = las'; active = some m })
  unfolding alloc_object
  alloc_object-fresh s m las' size version other active run t fits =
      let width : wrapping_add (total size) object_header_size ≡ total size + object_header_size =
        omega (arith, fits, t.addressed) in
      let same =
        generic_alloc-fresh s m las' (wrapping_add (total size) object_header_size) active run t
          (omega (arith, fits, width)) in
      rw same refl

module _ {S : Type 0} ⦃src : Source S⦄ (arr : Addressable S) (k base : ℕ)
    (las : LogicalAddressSpace S) (page next : Page) (rest : List Page) where
  -- Two free pages at hand, in memory and apart.
  pub record TwoPages : Type 0 where
    pub stock : Stock arr k base las (page ∷ next ∷ rest)
    pub apart : (page.offset + page.len ≤ next.offset) ⊎ (next.offset + next.len ≤ page.offset)
    pub room : version_size ≤ page.len
    pub low : page.offset + base + page.len < address_space

  abbrev pub own_slot : ℕ
  own_slot = page.offset + base

  -- A version slot has been made in the first page.
  pub record SlotMade : Type 0 where
    pub las_after : LogicalAddressSpace S
    pub run : new_indirect_version (record { las = las; active = none }) ≡ (
      ok (indirect own_slot),
      record { las = las_after; active = some (rest_of (whole_page arr k base page) version_size) },
    )
    pub stock : Stock arr k base las_after (next ∷ rest)
    pub first : Region arr las_after (page_slice arr k base page) k base stock.allocator
    pub content : slice (arr.content stock.allocator.source) page.offset 8 ≡ le_bytes 8 0
    pub frame :
        (u : LogicalSlice) (base' : ℕ) (bytes : List ℕ)
        → Disjoint (new_slice own_slot 8) u
        → Holds arr las u k base' bytes
        → Holds arr las_after u k base' bytes

  module _ (x : TwoPages) where
    abbrev a : SourceAllocator S
    a = x.stock.allocator

    abbrev las1 : LogicalAddressSpace S
    las1 = after_alloc arr k base las a (next ∷ rest)

    abbrev taken : SourceAllocator S
    taken = popped arr k base a (next ∷ rest)

    taken_region : Region arr las1 (page_slice arr k base page) k base taken
    taken_region =
        after_alloc-Region arr k base las a (next ∷ rest) (page_slice arr k base page)
          x.stock.regions.0

    wrote :
        WroteIn arr las1
          (page_slice arr k base page)
          k
          base
          taken
          taken_region
          (new_slice own_slot version_size)
          (le_bytes 8 new_version)
    wrote =
        write_through-WroteIn arr las1 (page_slice arr k base page) k base taken taken_region
          (new_slice own_slot version_size) (le_bytes 8 new_version)
          (omega arith, omega (arith, x.room), omega arith) (length-le_bytes 8 new_version)

    page-IsTight : IsTight (whole_page arr k base page)
    page-IsTight = record { same_offset = refl; same_len = refl; addressed = omega (arith, x.low) }

    slot_run : new_indirect_version (record { las = las; active = none }) ≡ (
      ok (indirect own_slot),
      record {
        las = wrote.las_after;
        active = some (rest_of (whole_page arr k base page) version_size);
      },
    )
    unfolding new_indirect_version
    slot_run =
        let fresh =
          generic_alloc-fresh (record { las = las; active = none }) (whole_page arr k base page)
            las1 version_size refl (alloc-Stock arr k base las page (next ∷ rest) x.stock)
            page-IsTight x.room in
        let got =
          generic_alloc-rest_of (record { las = las1; active = some (whole_page arr k base page) })
            (whole_page arr k base page) version_size refl page-IsTight x.room in
        ground (
          arith,
          fresh,
          got,
          wrote.run,
          new_byte_lem own_slot,
          new_indirect_sum own_slot (omega (arith, x.low)),
        )

    stocked : Stock arr k base wrote.las_after (next ∷ rest)
    stocked =
        wrote.stocks base (next ∷ rest)
          (after_alloc-Stock arr k base las page (next ∷ rest) x.stock)

    -- The source that was written to is the one with the free pages.
    same_source : wrote.allocator_after ≡ stocked.allocator
    same_source =
        Region-Stock arr k base wrote.las_after (page_slice arr k base page) wrote.allocator_after
          (next ∷ rest) stocked wrote.region

    written_there : slice (arr.content wrote.allocator_after.source) page.offset 8 ≡ le_bytes 8 0
    written_there =
        let start : own_slot - base ≡ page.offset = omega arith in
        let content : arr.content (wrote.allocator_after.source)
            ≡ store (arr.content (a.source)) page.offset (le_bytes 8 0) =
          wrote.content ∙ ap (λ o. store (arr.content (a.source)) o (le_bytes 8 0)) start in
        ap (λ (c : Bytes). slice c page.offset 8) content
        ∙ ap (slice (store (arr.content (a.source)) page.offset (le_bytes 8 0)) page.offset)
            (sym (length-le_bytes 8 0))
        ∙ slice-store_self (arr.content (a.source)) page.offset (le_bytes 8 0)

    pub new_indirect_version-fresh : SlotMade
    new_indirect_version-fresh = record {
      las_after = wrote.las_after;
      run = slot_run;
      stock = stocked;
      first =
          subst (Region arr wrote.las_after (page_slice arr k base page) k base) same_source
            wrote.region;
      content =
          subst (λ b. slice (arr.content b.source) page.offset 8 ≡ le_bytes 8 0) same_source
            written_there;
      frame = λ u base' bytes apart held.
          wrote.frame u base' bytes apart
            (after_alloc-Holds arr k base las page (next ∷ rest) x.stock u base' bytes held);
    }
