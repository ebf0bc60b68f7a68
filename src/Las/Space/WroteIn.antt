-- ===== src/Las/Space/WroteIn.antt =====
-- A write to a part of a page that one source holds.
use librarius.Prelude.{
  ℕ, ◌-◌, ◌≡◌, refl, ap, ◌∙◌, Bool, some, List, length, store, eq→==, if◌then◌else◌,
}
use librarius.Error.{ok}
use librarius.Source.{Source}
use librarius.Source.Contract.{Addressable}
use librarius.Source.Allocator.{SourceAllocator}
use librarius.Las.Slice.{LogicalSlice}
use librarius.Las.Table.{replace}
use librarius.Las.Table.Laws.{floor-replace}
use librarius.Las.Space.{LogicalAddressSpace, write_through}
use librarius.Las.Space.Translate.{Resolves, written, content-written}
use librarius.Las.Space.Memory.{
  Disjoint, Resolves-same, Holds, after, after-Holds, write_through-after,
}
use librarius.Las.Space.Region.{Region, Within, Region-Resolves}
use librarius.Las.Space.Stock.{KeepsStock, after-Stock}

module _ {S : Type 0} ⦃src : Source S⦄ (arr : Addressable S) where
  module _ (las : LogicalAddressSpace S) (s : LogicalSlice) (k base : ℕ) (a : SourceAllocator S)
      (r : Region arr las s k base a) where
    -- After a write to a part.
    pub record WroteIn (t : LogicalSlice) (new : List ℕ) : Type 0 where
      pub las_after : LogicalAddressSpace S
      pub allocator_after : SourceAllocator S
      pub run : write_through t new las ≡ (ok tt, las_after)
      pub region : Region arr las_after s k base allocator_after
      pub same_source :
          (u : LogicalSlice)
          → Region arr las u k base a
          → Region arr las_after u k base allocator_after
      pub sources : las_after.sources ≡ replace base allocator_after las.sources
      pub kept :
          (allocator_after.freelist ≡ a.freelist)
          × (allocator_after.pagesize ≡ a.pagesize)
          × (arr.size allocator_after.source ≡ arr.size a.source)
      pub content :
          arr.content allocator_after.source ≡ store (arr.content a.source) (t.offset - base) new
      pub stocks : KeepsStock arr k las las_after
      pub frame :
          (u : LogicalSlice) (base' : ℕ) (bytes : List ℕ)
          → Disjoint t u
          → Holds arr las u k base' bytes
          → Holds arr las_after u k base' bytes

    -- A region of the same source after the write.
    same_after :
        (t : LogicalSlice) (new : List ℕ) (same_length : length new ≡ t.len)
        (q : Resolves arr las t k base a) (u : LogicalSlice)
        → Region arr las u k base a
        → Region arr
            (after arr las t k base a q new same_length)
            u
            k
            base
            (written arr las t k base a q new same_length)
    same_after t new same_length q u x = record {
      whole = Resolves-same arr las t k base a q new same_length u x.whole;
      bounded = x.bounded;
      alone = λ j low high.
          floor-replace j base (written arr las t k base a q new same_length) las.sources
            x.whole.ordered (x.alone j low high)
          ∙ ap
              (λ (b : Bool).
                some (base, if b then written arr las t k base a q new same_length else a))
              (eq→== base base refl);
    }

    pub write_through-WroteIn :
        (t : LogicalSlice) (new : List ℕ)
        → Within arr las s k base a r t
        → length new ≡ t.len
        → WroteIn t new
    write_through-WroteIn t new h same_length =
        let q = Region-Resolves arr las s k base a r t h in
        record {
          las_after = after arr las t k base a q new same_length;
          allocator_after = written arr las t k base a q new same_length;
          run = write_through-after arr las t k base a q new same_length;
          region = same_after t new same_length q s r;
          same_source = same_after t new same_length q;
          sources = refl;
          kept = (refl, refl, arr.size-put _ _ a.source);
          content = content-written arr las t k base a q new same_length;
          stocks = λ start. after-Stock arr k start las t base a q new same_length;
          frame = after-Holds arr las t k base a q new same_length;
        }
