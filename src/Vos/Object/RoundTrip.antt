-- ===== src/Vos/Object/RoundTrip.antt =====
-- An `ObjectHeader` through its bytes.
use librarius.Prelude.{ℕ, ◌<◌, ◌^◌, ◌≡◌, arith, List, ◌++◌, le_bytes, le_value-le_bytes}
use librarius.Usize.{word}
use librarius.Vos.Object.{ObjectHeader, header_bytes, header_from_slice}

-- An object header whose fields fit their widths is read back from memory that starts with its
-- bytes.
pub header_from_slice-header_bytes :
    (h : ObjectHeader) (rest : List ℕ)
    → h.size.pointers < 2 ^ 32
    → h.size.user_data < 2 ^ 32
    → h.version < word
    → h.parent < word
    → h.other < word
    → header_from_slice (header_bytes h ++ rest) ≡ h
unfolding header_from_slice header_bytes le_bytes
header_from_slice-header_bytes h rest hp hu hv hq ho = ground (
  arith,
  le_value-le_bytes 4 h.size.pointers,
  le_value-le_bytes 4 h.size.user_data,
  le_value-le_bytes 8 h.version,
  le_value-le_bytes 8 h.parent,
  le_value-le_bytes 8 h.other,
)
