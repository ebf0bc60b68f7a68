-- ===== src/Las/Space/Ends.antt =====
-- The calls on the address space that come back when those of its sources do.
use librarius.Prelude.{ℕ, Option, none, some, Bool-cases, inl, inr, ◌==◌, leb, length, Option-cases}
use librarius.Error.{no_available_memory, Action}
use librarius.Source.{Source}
use librarius.Source.Allocator.{SourceAllocator, allocate_page, get_bytes_mut}
use librarius.Source.Allocator.Ends.{
  Ends, Returning, continue-Ends, assert-Ends, ok_or-Ends, allocate_page-Ends, get_bytes_mut-Ends,
}
use librarius.Utils.{align_up}
use librarius.Las.Slice.{LogicalSlice, to_page}
use librarius.Las.Table.{lookup, floor}
use librarius.Las.Space.{
  LogicalAddressSpace, unwrap, on_allocator, with_source, alloc, get_best_byte_addressable,
}

pub unwrap-Ends : {A : Type 0} (o : Option A) → Ends (unwrap o)
unwrap-Ends none = tt
unwrap-Ends (some a) = tt

pub to_page-Ends : (s : LogicalSlice) (pagesize base : ℕ) → Ends (to_page s pagesize base)
unfolding to_page
to_page-Ends s pagesize base = elim (Bool-cases (align_up s.len pagesize == pagesize)) [
  | inl fits ↦ rw (fits, Ends) tt
  | inr other ↦ rw (other, Ends) tt
]

module _ {S : Type 0} ⦃src : Source S⦄ where
  pub on_allocator-Ends :
      {A : Type 0} (base : ℕ) (m : Action (SourceAllocator S) A) (las : LogicalAddressSpace S)
      → ((a : SourceAllocator S) → Ends (m a).0)
      → Ends (on_allocator base m las).0
  on_allocator-Ends base m las h = elim (Option-cases (lookup base las.sources)) [
    | inl gone ↦ rw (gone, Ends) tt
    | inr (a, there) ↦ rw (there, Ends) (h a)
  ]

  pub with_source-Ends :
      {A : Type 0} (s : LogicalSlice) (f : ℕ → SourceAllocator S → Action (LogicalAddressSpace S) A)
      (las : LogicalAddressSpace S)
      → ((base : ℕ) (a : SourceAllocator S) → Ends (f base a las).0)
      → Ends (with_source s f las).0
  with_source-Ends s f las h = elim (Option-cases (floor s.offset las.sources)) [
    | inl gone ↦ rw (gone, Ends) tt
    | inr ((base, a), there) ↦ rw (there, Ends) (h base a)
  ]

  -- `alloc` comes back.
  pub alloc-Ends : Returning S → (las : LogicalAddressSpace S) → Ends (alloc las).0
  unfolding alloc
  alloc-Ends returning las =
      continue-Ends _ _ (ok_or-Ends (get_best_byte_addressable las) no_available_memory)
        λ (base, a) las.
          continue-Ends _ _ (on_allocator-Ends base allocate_page las allocate_page-Ends)
            λ page las.
              continue-Ends _ _
                (on_allocator-Ends base (λ b. (get_bytes_mut page b, b)) las
                  (get_bytes_mut-Ends returning page))
                λ bytes las.
                  continue-Ends (unwrap bytes, las) _ (unwrap-Ends bytes)
                    λ contents las.
                      continue-Ends _ _ (assert-Ends (leb _ (length contents.0)) las) λ _ _. tt
