-- ===== src/Las/Space/Fresh.antt =====
-- `LogicalAddressSpace::alloc` with a free page at hand.
use librarius.Prelude.{
  ℕ, ◌+◌, ◌^◌, ◌≤◌, ◌<◌, ◌≡◌, refl, sym, ap, subst, ◌∙◌, arith, Bool, some, List, ◌∷◌, length-slice,
  eq→==, if◌then◌else◌, All,
}
use librarius.Usize.{word}
use librarius.Error.{ok}
use librarius.Source.{Source, Page}
use librarius.Source.Contract.{Addressable}
use librarius.Source.Allocator.{SourceAllocator, allocate_page, get_bytes_mut}
use librarius.Source.Allocator.Freelist.{dequeue, allocate_page-dequeue}
use librarius.Las.Slice.{LogicalSlice, new_slice, from_page, page_offset}
use librarius.Las.MutRef.{LogicalMutRef}
use librarius.Las.Table.{replace, floor}
use librarius.Las.Table.Laws.{replace-Ordered, floor-lookup, floor-replace}
use librarius.Las.Space.{LogicalAddressSpace, get_best_byte_addressable, alloc}
use librarius.Las.Space.Locate.{page_start}
use librarius.Las.Space.Region.{Region}

module _ {S : Type 0} ⦃src : Source S⦄ (arr : Addressable S) (k base : ℕ) where
  -- The space with the allocator of a source changed, and the source kept.
  abbrev pub put_allocator : LogicalAddressSpace S → SourceAllocator S → LogicalAddressSpace S
  put_allocator las b = record las { sources = replace base b las.sources }

  pub put_allocator-Region :
      (las : LogicalAddressSpace S) (a b : SourceAllocator S) (t : LogicalSlice)
      → b.source ≡ a.source
      → Region arr las t k base a
      → Region arr (put_allocator las b) t k base b
  put_allocator-Region las a b t same r =
      let q = r.whole in
      let moved : (j : ℕ)
          → floor j las.sources ≡ some (base, a)
          → floor j (replace base b las.sources) ≡ some (base, b) =
        λ j found.
          floor-replace j base b las.sources q.ordered found
          ∙ ap (λ (x : Bool). some (base, if x then b else a)) (eq→== base base refl) in
      record {
        whole = record {
          found = moved t.offset q.found;
          ordered = replace-Ordered base b las.sources q.ordered;
          paged = q.paged;
          byte_addressable = ap (λ s. src.is_byte_addressable s) same ∙ q.byte_addressable;
          sized = subst (λ s. arr.size s < word) (sym same) q.sized;
          placed = q.placed;
          inside = subst (λ s. page_start k base t + 2 ^ k ≤ arr.size s) (sym same) q.inside;
        };
        bounded = r.bounded;
        alone = λ j low high. moved j (r.alone j low high);
      }

  abbrev pub page_slice : Page → LogicalSlice
  page_slice page = new_slice (page.offset + base) page.len

  abbrev pub whole_page : Page → LogicalMutRef
  whole_page page = record { region = page_slice page; slice = page_slice page }

  -- The allocator without its first page, and the space then. The map of sources is written to at
  -- both calls on the allocator.
  abbrev pub popped : SourceAllocator S → List Page → SourceAllocator S
  popped a rest = record a { freelist = rest }

  abbrev pub after_alloc :
      LogicalAddressSpace S → SourceAllocator S → List Page → LogicalAddressSpace S
  after_alloc las a rest = put_allocator (put_allocator las (popped a rest)) (popped a rest)

  pub after_alloc-Region :
      (las : LogicalAddressSpace S) (a : SourceAllocator S) (rest : List Page) (t : LogicalSlice)
      → Region arr las t k base a
      → Region arr (after_alloc las a rest) t k base (popped a rest)
  after_alloc-Region las a rest t r =
      put_allocator-Region (put_allocator las (popped a rest)) (popped a rest) (popped a rest) t
        refl (put_allocator-Region las a (popped a rest) t refl r)

  module _ (las : LogicalAddressSpace S) (a : SourceAllocator S) (page : Page) (rest : List Page)
      (best : get_best_byte_addressable las ≡ some (base, a)) (free : a.freelist ≡ page ∷ rest)
      (sizes : All (λ p. p.len ≡ a.pagesize) a.freelist)
      (region : Region arr las (page_slice page) k base a)
      (inside : page.offset + page.len ≤ arr.size a.source) where
    taken : allocate_page a ≡ (ok page, popped a rest)
    taken = allocate_page-dequeue a sizes ∙ ap (dequeue a) free

    pub alloc_lem : alloc las ≡ (ok (whole_page page), after_alloc las a rest)
    unfolding alloc get_bytes_mut from_page page_offset
    alloc_lem =
        let q = region.whole in
        let q1 = (put_allocator-Region las a (popped a rest) (page_slice page) refl region).whole in
        let listed = (floor-lookup (page_slice page).offset las.sources q.ordered q.found).0 in
        let listed1 =
          (floor-lookup (page_slice page).offset (replace base (popped a rest) las.sources)
            q1.ordered q1.found).0 in
        ground (
          arith,
          best,
          taken,
          listed,
          listed1,
          q.byte_addressable,
          region.bounded,
          q.placed.addressed,
          arr.at_mut_lem page.offset page.len a.source q.byte_addressable q.sized inside,
          length-slice (arr.content a.source) page.offset page.len,
        )
