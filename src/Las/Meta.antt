-- ===== src/Las/Meta.antt =====
-- src/las.rs: `Meta`, the struct at the start of a source's second page, as its bytes. The fields
-- stand in the order of their declaration: the slice, the crc, and the root. The crc is a parameter.
use librarius.Prelude.{ℕ, Bool, List, ◌++◌, take, drop, replicate, ◌==◌, le_bytes, le_value}
use librarius.Las.Slice.{LogicalSlice, new_slice}

abbrev pub root_size : ℕ
root_size = 64

pub record Meta : Type 0 where
  pub slice : LogicalSlice
  pub crc : ℕ
  pub root : List ℕ

-- `offset_of!(Meta, root)`
abbrev pub root_offset : ℕ
root_offset = 20

-- `size_of::<Meta>()`
abbrev pub meta_size : ℕ
meta_size = 88

-- `any_as_slice` of the meta data and of the whole struct, with its padding
unfoldable pub slice_bytes : LogicalSlice → List ℕ
slice_bytes s = le_bytes 8 s.offset ++ le_bytes 8 s.len

unfoldable pub meta_bytes : Meta → List ℕ
unfolding slice_bytes
meta_bytes m = slice_bytes m.slice ++ le_bytes 4 m.crc ++ m.root ++ replicate 4 0

-- `any_from_slice`
unfoldable pub meta_from_slice : List ℕ → Meta
meta_from_slice bytes = record {
  slice = new_slice (le_value (take 8 bytes)) (le_value (take 8 (drop 8 bytes)));
  crc = le_value (take 4 (drop 16 bytes));
  root = take root_size (drop root_offset bytes);
}

module _ (crc : List ℕ → ℕ) where
  -- `Meta::new`
  unfoldable pub new_meta : LogicalSlice → Meta
  unfolding slice_bytes
  new_meta s = record { slice = s; crc = crc (slice_bytes s); root = replicate root_size 0 }

  -- `Meta::is_valid`
  unfoldable pub is_valid : Meta → Bool
  unfolding slice_bytes
  is_valid m = m.crc == crc (slice_bytes m.slice)
