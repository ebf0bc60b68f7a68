-- ===== src/Source/Header.antt =====
-- src/source/mod.rs: `SourceHeader`, as the bytes of the struct. The crc is a parameter. The fields
-- stand in the order of their declaration, little-endian, and the four bytes of padding are zero.
pub mod RoundTrip
use librarius.Prelude.{ℕ, ◌&&◌, Bool, List, ◌++◌, take, drop, replicate, ◌==◌, le_bytes, le_value}

abbrev pub source_header_magic : ℕ
source_header_magic = 0xDEADBEEF

pub record SourceHeaderData : Type 0 where
  pub magic : ℕ
  pub pagesize : ℕ

pub record SourceHeader : Type 0 where
  pub header : SourceHeaderData
  pub crc32 : ℕ

-- `size_of::<SourceHeader>()`
abbrev pub header_size : ℕ
header_size = 24

-- `any_as_slice` of the data and of the header
unfoldable pub data_bytes : SourceHeaderData → List ℕ
data_bytes d = le_bytes 8 d.magic ++ le_bytes 8 d.pagesize

unfoldable pub header_bytes : SourceHeader → List ℕ
unfolding data_bytes
header_bytes h = data_bytes h.header ++ le_bytes 4 h.crc32 ++ replicate 4 0

-- `any_from_slice`
unfoldable pub header_from_slice : List ℕ → SourceHeader
header_from_slice bytes = record {
  header = record { magic = le_value (take 8 bytes); pagesize = le_value (take 8 (drop 8 bytes)) };
  crc32 = le_value (take 4 (drop 16 bytes));
}

module _ (crc : List ℕ → ℕ) where
  -- `SourceHeader::new`
  unfoldable pub new_header : ℕ → SourceHeader
  unfolding data_bytes
  new_header pagesize =
      let d : SourceHeaderData = record { magic = source_header_magic; pagesize = pagesize } in
      record { header = d; crc32 = crc (data_bytes d) }

  unfoldable pub is_valid : SourceHeader → Bool
  unfolding data_bytes
  is_valid h = (h.header.magic == source_header_magic) && (h.crc32 == crc (data_bytes h.header))
