-- ===== src/Las/Open/Root.antt =====
-- Where the root slice is put when a heap is created, and where when it is opened again.
use librarius.Prelude.{ℕ, ◌+◌, ◌≤◌, ◌<◌, ◌≡◌, arith, none, some, false, List}
use librarius.Usize.{word}
use librarius.Error.{ok}
use librarius.Source.{Source}
use librarius.Source.Allocator.{SourceAllocator, get_meta}
use librarius.Las.Slice.{LogicalSlice, new_slice, new_stored}
use librarius.Las.Meta.{Meta, root_size}
use librarius.Las.Space.{LogicalAddressSpace, get_best_persistent}
use librarius.Las.Open.{all_zero, found_root, choose_root}

-- For a heap whose best persistent source stands at a base address, with a page size of at least
-- the root's and a root that ends below 2^64, and metadata that names that base and a root that is
-- not all zero, the root slice that creation chooses and the one that a reopening reads from that
-- source's metadata are different: the second ends before the first starts.
pub choose_root-found_root :
    {S : Type 0} ⦃src : Source S⦄ (crc : List ℕ → ℕ) (las : LogicalAddressSpace S)
    (a : SourceAllocator S) (m : Meta) (base : ℕ)
    → get_best_persistent las ≡ some (base, a)
    → m.slice.offset ≡ base
    → all_zero m.root ≡ false
    → root_size ≤ a.pagesize
    → base + a.pagesize + 84 < word
    → (created opened : LogicalSlice) × (choose_root crc las
        ≡ ok (new_stored created (src.is_byte_addressable a.source)))
      × (found_root crc m a none ≡ ok (some (new_stored opened (src.is_byte_addressable a.source))))
      × (opened.offset + opened.len ≤ created.offset)
unfolding choose_root found_root get_meta
choose_root-found_root crc las a m base best same written large small = (
  new_slice (base + a.pagesize + 20) root_size,
  new_slice (base + 20) root_size,
  ground (arith, best),
  ground (arith, written, same),
  omega arith,
)
