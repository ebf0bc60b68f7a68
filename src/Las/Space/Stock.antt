-- ===== src/Las/Space/Stock.antt =====
-- The free pages of the first byte-addressable source, in memory, and what keeps them there.
pub mod Taken
use native.Mathlib.Decide.{ℕ_discrete}
use librarius.Prelude.{
  ℕ, ◌+◌, ◌-◌, ◌==◌, ◌^◌, ◌≤◌, ◌<◌, ◌≡◌, refl, sym, ap, subst, ◌∙◌, arith, Bool, true, some, List,
  [], ◌∷◌, length, All, All-map, slice, eq→==, ne→==, if◌then◌else◌,
}
use librarius.Error.{ok}
use librarius.Source.{Source, Page}
use librarius.Source.Contract.{Addressable}
use librarius.Source.Allocator.{SourceAllocator}
use librarius.Las.Slice.{LogicalSlice}
use librarius.Las.Table.{lookup, replace, find}
use librarius.Las.Table.Laws.{
  replace-Ordered, floor-lookup, find-replace, find-replace_other, find-lookup, floor-replace,
}
use librarius.Las.Space.{LogicalAddressSpace, get_best_byte_addressable, get_best_source, alloc}
use librarius.Usize.{word}
use librarius.Las.Space.Locate.{page_start}
use librarius.Las.Space.Translate.{Resolves, written}
use librarius.Las.Space.Memory.{Holds, after}
use librarius.Las.Space.Region.{Region, after-Region}
use librarius.Las.Space.Fresh.{
  page_slice, whole_page, popped, put_allocator, after_alloc, alloc_lem, after_alloc-Region,
  put_allocator-Region,
}

module _ {S : Type 0} ⦃src : Source S⦄ (arr : Addressable S) (k base : ℕ) where
  -- The free pages, as the source at a base address has them.
  pub record Stock (las : LogicalAddressSpace S) (pages : List Page) : Type 0 where
    pub allocator : SourceAllocator S
    pub best : get_best_byte_addressable las ≡ some (base, allocator)
    pub free : allocator.freelist ≡ pages
    pub sizes : All (λ p. p.len ≡ allocator.pagesize) pages
    pub regions : All (λ p. Region arr las (page_slice arr k base p) k base allocator) pages
    pub inside : All (λ p. p.offset + p.len ≤ arr.size allocator.source) pages

  abbrev pub is_addressable : SourceAllocator S → Bool
  is_addressable b = src.is_byte_addressable b.source

  -- A write through a slice keeps them.
  module _ (las : LogicalAddressSpace S) (s : LogicalSlice) (base' : ℕ) (a' : SourceAllocator S)
      (q : Resolves arr las s k base' a') (new : List ℕ) (same_length : length new ≡ s.len)
      (pages : List Page) (x : Stock las pages) where
    abbrev las' : LogicalAddressSpace S
    las' = after arr las s k base' a' q new same_length

    abbrev b' : SourceAllocator S
    b' = written arr las s k base' a' q new same_length

    still : src.is_byte_addressable b'.source ≡ true
    still = arr.is_byte_addressable-put _ _ a'.source ∙ q.byte_addressable

    here : lookup base' las.sources ≡ some a'
    here = (floor-lookup s.offset las.sources q.ordered q.found).0

    record Kept : Type 0 where
      allocator_after : SourceAllocator S
      best_after : get_best_byte_addressable las' ≡ some (base, allocator_after)
      free_same : allocator_after.freelist ≡ x.allocator.freelist
      pagesize_same : allocator_after.pagesize ≡ x.allocator.pagesize
      size_same : arr.size allocator_after.source ≡ arr.size x.allocator.source

    kept : Kept
    unfolding get_best_byte_addressable get_best_source
    kept = elim (ℕ_discrete base base') [
      | yes e ↦
          let there = find-lookup is_addressable base x.allocator las.sources q.ordered x.best in
          let same : x.allocator ≡ a' = cc (here, there, e) in
          record {
            allocator_after = b';
            best_after =
                subst (λ n. find is_addressable (replace base' b' las.sources) ≡ some (n, b'))
                  (sym e)
                  (find-replace is_addressable base' a' b' las.sources q.ordered
                    (x.best ∙ ap (λ n. some (n, x.allocator)) e ∙ ap (λ b. some (base', b)) same)
                    still);
            free_same = ap (λ b. b.freelist) (sym same);
            pagesize_same = ap (λ b. b.pagesize) (sym same);
            size_same = arr.size-put _ _ a'.source ∙ ap (λ b. arr.size b.source) (sym same);
          }
      | no ne ↦ record {
        allocator_after = x.allocator;
        best_after =
            find-replace_other is_addressable base base' x.allocator a' b' las.sources q.ordered
              x.best here q.byte_addressable still ne;
        free_same = refl;
        pagesize_same = refl;
        size_same = refl;
      }
    ]

    pub after-Stock : Stock las' pages
    unfolding get_best_byte_addressable get_best_source
    after-Stock =
        let ordered = replace-Ordered base' b' las.sources q.ordered in
        let there =
          find-lookup is_addressable base kept.allocator_after las'.sources ordered
            kept.best_after in
        record {
          allocator = kept.allocator_after;
          best = kept.best_after;
          free = kept.free_same ∙ x.free;
          sizes =
              All-map (λ p (e : p.len ≡ x.allocator.pagesize). e ∙ sym kept.pagesize_same) pages
                x.sizes;
          regions =
              All-map
                (λ p (r : Region arr las (page_slice arr k base p) k base x.allocator).
                  let (b, r') =
                    after-Region arr las s k base' a' q new same_length (page_slice arr k base p)
                      base x.allocator r in
                  let found =
                    (floor-lookup (p.offset + base) las'.sources ordered r'.whole.found).0 in
                  let same : b ≡ kept.allocator_after = cc (found, there) in
                  subst (Region arr las' (page_slice arr k base p) k base) same r')
                pages x.regions;
          inside =
              All-map
                (λ p (e : p.offset + p.len ≤ arr.size x.allocator.source).
                  omega (arith, e, kept.size_same))
                pages x.inside;
        }

  -- What is in the same source as the free pages.
  pub Region-Stock :
      (las : LogicalAddressSpace S) (t : LogicalSlice) (b : SourceAllocator S) (pages : List Page)
      (x : Stock las pages)
      → Region arr las t k base b
      → b ≡ x.allocator
  unfolding get_best_byte_addressable get_best_source
  Region-Stock las t b pages x r =
      let q = r.whole in
      let here = (floor-lookup t.offset las.sources q.ordered q.found).0 in
      let there = find-lookup is_addressable base x.allocator las.sources q.ordered x.best in
      cc (here, there)

module _ {S : Type 0} ⦃src : Source S⦄ (arr : Addressable S) (k : ℕ) where
  -- From one space to the other, the free pages stay.
  abbrev pub KeepsStock : LogicalAddressSpace S → LogicalAddressSpace S → Type 0
  KeepsStock las las' =
      (start : ℕ) (pages : List Page) → Stock arr k start las pages → Stock arr k start las' pages
