-- ===== src/Vos/Object.antt =====
-- src/vos.rs: `ObjectSize` and `ObjectHeader`, as the bytes of the struct. The fields stand in the
-- order of their declaration.
pub mod RoundTrip
use librarius.Prelude.{ℕ, ◌+◌, ◌%◌, ◌^◌, List, ◌++◌, take, drop, le_bytes, le_value}
use librarius.Vos.Pointer.{UntypedPointer, new_none}
use librarius.Vos.Version.{Version}

pub record ObjectSize : Type 0 where
  pub pointers : ℕ  -- u32
  pub user_data : ℕ  -- u32

-- `ObjectSize::new`
abbrev pub new_size : ℕ → ℕ → ObjectSize
new_size pointers user_data = record { pointers = pointers; user_data = user_data }

-- `as u32`
unfoldable pub new_with_usize : ℕ → ℕ → ObjectSize
new_with_usize pointers user_data = new_size (pointers % 2 ^ 32) (user_data % 2 ^ 32)

-- The sum is taken in 32 bits.
unfoldable pub total : ObjectSize → ℕ
total size = (size.pointers + size.user_data) % 2 ^ 32

pub record ObjectHeader : Type 0 where
  pub size : ObjectSize
  pub version : Version
  pub parent : UntypedPointer
  pub other : UntypedPointer

-- `size_of::<ObjectHeader>()`, and where its fields stand
abbrev pub object_header_size : ℕ
object_header_size = 32

abbrev pub version_offset : ℕ
version_offset = 8

abbrev pub other_offset : ℕ
other_offset = 24

-- `ObjectHeader::new`
unfoldable pub new_header : ObjectSize → Version → UntypedPointer → ObjectHeader
new_header size version other = record {
  size = size;
  version = version;
  parent = new_none;
  other = other;
}

unfoldable pub header_bytes : ObjectHeader → List ℕ
header_bytes h =
    le_bytes 4 h.size.pointers
    ++ le_bytes 4 h.size.user_data
    ++ le_bytes 8 h.version
    ++ le_bytes 8 h.parent
    ++ le_bytes 8 h.other

-- `ObjectHeader::from_slice`
unfoldable pub header_from_slice : List ℕ → ObjectHeader
header_from_slice bytes = record {
  size = new_size (le_value (take 4 bytes)) (le_value (take 4 (drop 4 bytes)));
  version = le_value (take 8 (drop 8 bytes));
  parent = le_value (take 8 (drop 16 bytes));
  other = le_value (take 8 (drop 24 bytes));
}
