-- ===== src/Vos/Place/Words.antt =====
-- Words of the address space: what `load`, `store_word` and `compare_and_swap` do to a word and to
-- the others.
use librarius.Prelude.{
  ℕ, ◌+◌, ◌≤◌, ◌<◌, ◌≡◌, ◌≢◌, arith, true, false, List, length, le_value, le_bytes, length-le_bytes,
  le_value-le_bytes, ◌⊎◌, inl, inr,
}
use librarius.Usize.{word}
use librarius.Error.{ok}
use librarius.Source.{Source}
use librarius.Source.Contract.{Addressable}
use librarius.Source.Allocator.{SourceAllocator}
use librarius.Las.Slice.{LogicalSlice, new_slice}
use librarius.Las.Space.{LogicalAddressSpace}
use librarius.Las.Space.Memory.{
  Disjoint, Holds, read-Holds, after, after_self, after-Holds, write_through-after,
}
use librarius.Las.Space.Stock.{KeepsStock, after-Stock}
use librarius.Las.Space.Region.{Region, after-Region}
use librarius.Vos.Place.{cell, load, store_word, compare_and_swap}

-- Two words that share no byte.
abbrev pub Apart : ℕ → ℕ → Type 0
Apart c d = (c + 8 ≤ d) ⊎ (d + 8 ≤ c)

pub Apart-symm : (c d : ℕ) → Apart c d → Apart d c
Apart-symm c d (inl h) = inr h
Apart-symm c d (inr h) = inl h

module _ {S : Type 0} ⦃src : Source S⦄ (arr : Addressable S) (k : ℕ) where
  -- The word at an address, in a page of size `2 ^ k`, holds a value.
  pub record Word (las : LogicalAddressSpace S) (c v : ℕ) : Type 0 where
    pub base : ℕ
    pub bytes : List ℕ
    pub there : Holds arr las (new_slice c 8) k base bytes
    pub value : le_value bytes ≡ v

  pub load_lem :
      {las : LogicalAddressSpace S} (c v : ℕ) → Word las c v → load (cell c) las ≡ (ok v, las)
  unfolding load
  load_lem {las} c v w =
      ground (arith, read-Holds arr las (new_slice c 8) k w.base w.bytes w.there, w.value)

  -- The space after a word is stored.
  pub record Stored (las las' : LogicalAddressSpace S) (c v : ℕ) : Type 0 where
    pub here : Word las' c v
    pub others : (d u : ℕ) → Apart c d → Word las d u → Word las' d u
    -- also slices of other lengths
    pub slices :
        (t : LogicalSlice) (base : ℕ) (bytes : List ℕ)
        → Disjoint (new_slice c 8) t
        → Holds arr las t k base bytes
        → Holds arr las' t k base bytes
    pub regions :
        (t : LogicalSlice) (base : ℕ) (a : SourceAllocator S)
        → Region arr las t k base a
        → (b : SourceAllocator S) × Region arr las' t k base b
    pub stocks : KeepsStock arr k las las'

  pub store_word_lem :
      {las : LogicalAddressSpace S} (c u v : ℕ)
      → v < word
      → Word las c u
      → (las' : LogicalAddressSpace S) × (store_word (cell c) v las ≡ (ok (cell c), las'))
        × Stored las las' c v
  unfolding store_word
  store_word_lem {las} c u v small w =
      let n : length (le_bytes 8 v) ≡ 8 = length-le_bytes 8 v in
      let q = w.there.resolves in
      (
        after arr las (new_slice c 8) k w.base w.there.allocator q (le_bytes 8 v) n,
        ground (
          arith,
          write_through-after arr las (new_slice c 8) k w.base w.there.allocator q (le_bytes 8 v) n,
        ),
        record {
          here = record {
            base = w.base;
            bytes = le_bytes 8 v;
            there =
                after_self arr las (new_slice c 8) k w.base w.there.allocator q (le_bytes 8 v) n;
            value = le_value-le_bytes 8 v small;
          };
          others = λ d x apart other. record {
            base = other.base;
            bytes = other.bytes;
            there =
                after-Holds arr las (new_slice c 8) k w.base w.there.allocator q (le_bytes 8 v) n
                  (new_slice d 8) other.base other.bytes apart other.there;
            value = other.value;
          };
          slices = λ t base bytes apart h.
              after-Holds arr las (new_slice c 8) k w.base w.there.allocator q (le_bytes 8 v) n t
                base bytes apart h;
          regions =
              after-Region arr las (new_slice c 8) k w.base w.there.allocator q (le_bytes 8 v) n;
          stocks = λ start.
              after-Stock arr k start las (new_slice c 8) w.base w.there.allocator q (le_bytes 8 v)
                n;
        },
      )

  -- A compare-and-swap against the word's value stores the new one; against any other value it
  -- changes nothing.
  pub compare_and_swap-hit :
      {las : LogicalAddressSpace S} (c u current v : ℕ)
      → v < word
      → Word las c u
      → u ≡ current
      → (las' : LogicalAddressSpace S) × (compare_and_swap (cell c) current v las
          ≡ (ok (true, cell c), las'))
        × Stored las las' c v
  unfolding compare_and_swap
  compare_and_swap-hit {las} c u current v small w same =
      let (las', run, stored) = store_word_lem c u v small w in
      (las', ground (arith, load_lem c u w, run), stored)

  pub compare_and_swap-miss :
      {las : LogicalAddressSpace S} (c u current v : ℕ)
      → Word las c u
      → u ≢ current
      → compare_and_swap (cell c) current v las ≡ (ok (false, cell c), las)
  unfolding compare_and_swap
  compare_and_swap-miss {las} c u current v w other = ground (arith, load_lem c u w)
