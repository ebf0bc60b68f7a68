-- ===== src/Source/Header/RoundTrip.antt =====
-- A `SourceHeader` through its bytes.
use librarius.Prelude.{
  ℕ, ◌<◌, ◌^◌, ◌≡◌, refl, sym, subst, true, arith, List, ◌++◌, le_bytes, le_value-le_bytes,
}
use librarius.Usize.{word}
use librarius.Source.Header.{
  SourceHeader, data_bytes, header_bytes, header_from_slice, new_header, is_valid,
}

-- A header whose fields fit their widths is read back from a page that starts with its bytes.
pub header_from_slice_lem :
    (h : SourceHeader) (rest : List ℕ)
    → h.header.magic < word
    → h.header.pagesize < word
    → h.crc32 < 2 ^ 32
    → header_from_slice (header_bytes h ++ rest) ≡ h
unfolding header_from_slice header_bytes data_bytes le_bytes
header_from_slice_lem h rest hm hp hc = ground (
  arith,
  le_value-le_bytes 8 h.header.magic,
  le_value-le_bytes 8 h.header.pagesize,
  le_value-le_bytes 4 h.crc32,
)

-- With a crc below 2^32 and a page size below 2^64, the header that create writes is found valid
-- when it is read back from a page that starts with its bytes, with its page size.
pub new_header-is_valid :
    (crc : List ℕ → ℕ) (pagesize : ℕ) (rest : List ℕ)
    → ((bytes : List ℕ) → crc bytes < 2 ^ 32)
    → pagesize < word
    → let h = header_from_slice (header_bytes (new_header crc pagesize) ++ rest) in
      (is_valid crc h ≡ true) × (h.header.pagesize ≡ pagesize)
unfolding new_header is_valid data_bytes
new_header-is_valid crc pagesize rest bounded small =
    let back =
      header_from_slice_lem (new_header crc pagesize) rest (omega arith) small (bounded _) in
    subst (λ (h : SourceHeader). (is_valid crc h ≡ true) × (h.header.pagesize ≡ pagesize))
      (sym back) (ground arith, refl)
