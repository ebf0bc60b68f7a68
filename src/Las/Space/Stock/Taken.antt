-- ===== src/Las/Space/Stock/Taken.antt =====
-- The first free page taken.
use native.Mathlib.Decide.{ℕ_discrete}
use librarius.Prelude.{
  ℕ, ◌+◌, ◌-◌, ◌==◌, ◌^◌, ◌≤◌, ◌<◌, ◌≡◌, refl, sym, ap, subst, ◌∙◌, Bool, some, List, ◌∷◌, All,
  All-map, slice, eq→==, ne→==, if◌then◌else◌,
}
use librarius.Error.{ok}
use librarius.Source.{Source, Page}
use librarius.Source.Contract.{Addressable}
use librarius.Source.Allocator.{SourceAllocator}
use librarius.Las.Slice.{LogicalSlice}
use librarius.Las.Table.{lookup, replace}
use librarius.Las.Table.Laws.{replace-Ordered, floor-lookup, find-replace, floor-replace}
use librarius.Las.Space.{LogicalAddressSpace, get_best_byte_addressable, get_best_source, alloc}
use librarius.Usize.{word}
use librarius.Las.Space.Locate.{page_start}
use librarius.Las.Space.Memory.{Holds}
use librarius.Las.Space.Fresh.{
  page_slice, whole_page, popped, put_allocator, after_alloc, alloc_lem, after_alloc-Region,
  put_allocator-Region,
}
use librarius.Las.Space.Stock.{Stock, is_addressable}

module _ {S : Type 0} ⦃src : Source S⦄ (arr : Addressable S) (k base : ℕ) where
  -- A change of an allocator that keeps the source changes no byte.
  put_allocator-Holds :
      (las : LogicalAddressSpace S) (a b : SourceAllocator S) (t : LogicalSlice) (base' : ℕ)
      (bytes : List ℕ)
      → lookup base las.sources ≡ some a
      → b.source ≡ a.source
      → Holds arr las t k base' bytes
      → Holds arr (put_allocator arr k base las b) t k base' bytes
  put_allocator-Holds las a b t base' bytes here same h =
      let q = h.resolves in
      let c : SourceAllocator S = if base' == base then b else h.allocator in
      let there = (floor-lookup t.offset las.sources q.ordered q.found).0 in
      let kept : c.source ≡ h.allocator.source = elim (ℕ_discrete base' base) [
        | yes e ↦
            let own : a ≡ h.allocator = cc (here, there, e) in
            ap (λ (x : Bool). (if x then b else h.allocator).source) (eq→== base' base e)
            ∙ same
            ∙ ap (λ (x : SourceAllocator S). x.source) own
        | no ne ↦ ap (λ (x : Bool). (if x then b else h.allocator).source) (ne→== base' base ne)
      ] in
      record {
        allocator = c;
        resolves = record {
          found = floor-replace t.offset base b las.sources q.ordered q.found;
          ordered = replace-Ordered base b las.sources q.ordered;
          paged = q.paged;
          byte_addressable = ap (λ s. src.is_byte_addressable s) kept ∙ q.byte_addressable;
          sized = subst (λ s. arr.size s < word) (sym kept) q.sized;
          placed = q.placed;
          inside = subst (λ s. page_start k base' t + 2 ^ k ≤ arr.size s) (sym kept) q.inside;
        };
        bytes_there = ap (λ s. slice (arr.content s) (t.offset - base') t.len) kept ∙ h.bytes_there;
      }

  -- The first of them taken.
  pub after_alloc-Holds :
      (las : LogicalAddressSpace S) (page : Page) (rest : List Page)
      (x : Stock arr k base las (page ∷ rest)) (t : LogicalSlice) (base' : ℕ) (bytes : List ℕ)
      → Holds arr las t k base' bytes
      → Holds arr (after_alloc arr k base las x.allocator rest) t k base' bytes
  after_alloc-Holds las page rest x t base' bytes h =
      let a = x.allocator in
      let b = popped arr k base a rest in
      let r = x.regions.0.whole in
      let r1 =
        (put_allocator-Region arr k base las a b (page_slice arr k base page) refl
          x.regions.0).whole in
      put_allocator-Holds (put_allocator arr k base las b) b b t base' bytes
        (floor-lookup (page.offset + base) (replace base b las.sources) r1.ordered r1.found).0 refl
        (put_allocator-Holds las a b t base' bytes
          (floor-lookup (page.offset + base) las.sources r.ordered r.found).0 refl h)

  pub after_alloc-Stock :
      (las : LogicalAddressSpace S) (page : Page) (rest : List Page)
      (x : Stock arr k base las (page ∷ rest))
      → Stock arr k base (after_alloc arr k base las x.allocator rest) rest
  unfolding get_best_byte_addressable get_best_source
  after_alloc-Stock las page rest x =
      let b = popped arr k base x.allocator rest in
      let own = x.regions.0.whole.byte_addressable in
      let ordered = x.regions.0.whole.ordered in
      let first =
        find-replace (is_addressable arr k base) base x.allocator b las.sources ordered x.best
          own in
      record {
        allocator = b;
        best =
            find-replace (is_addressable arr k base) base b b (replace base b las.sources)
              (replace-Ordered base b las.sources ordered) first own;
        free = refl;
        sizes = x.sizes.1;
        regions =
            All-map
              (λ p. after_alloc-Region arr k base las x.allocator rest (page_slice arr k base p))
              rest x.regions.1;
        inside = x.inside.1;
      }

  pub alloc-Stock :
      (las : LogicalAddressSpace S) (page : Page) (rest : List Page)
      (x : Stock arr k base las (page ∷ rest))
      → alloc las ≡ (ok (whole_page arr k base page), after_alloc arr k base las x.allocator rest)
  alloc-Stock las page rest x =
      alloc_lem arr k base las x.allocator page rest x.best x.free
        (subst (All (λ p. p.len ≡ x.allocator.pagesize)) (sym x.free) x.sizes) x.regions.0
        x.inside.0
