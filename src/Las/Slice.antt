-- ===== src/Las/Slice.antt =====
-- src/las.rs: `LogicalSlice` and `StoredLogicalSlice`. `PageHeader` has no fields, so its size is 0.
use librarius.Prelude.{ℕ, Bool, true, false, ◌==◌}
use librarius.Usize.{wrapping_add, wrapping_sub}
use librarius.Utils.{align_up, align_down}
use librarius.Error.{Result, ok, panic}
use librarius.Source.{Page, new_page}

abbrev pub LogicalAddress : Type 0
LogicalAddress = ℕ

pub record LogicalSlice : Type 0 where
  pub offset : LogicalAddress
  pub len : ℕ

-- `LogicalSlice::new`
abbrev pub new_slice : LogicalAddress → ℕ → LogicalSlice
new_slice offset len = record { offset = offset; len = len }

abbrev pub none_slice : LogicalSlice
none_slice = new_slice 0 0

-- `size_of::<PageHeader>()`
abbrev pub page_header_size : ℕ
page_header_size = 0

unfoldable pub split_at : LogicalSlice → ℕ → LogicalSlice × LogicalSlice
split_at s mid =
    (new_slice s.offset mid, new_slice (wrapping_add s.offset mid) (wrapping_sub s.len mid))

unfoldable pub from_page : Page → LogicalAddress → LogicalSlice
from_page page base_offset =
    new_slice (wrapping_add (wrapping_add page.offset base_offset) page_header_size)
      (wrapping_sub page.len page_header_size)

unfoldable pub page_offset : LogicalSlice → Page → LogicalAddress → LogicalAddress
page_offset s page base_offset = wrapping_sub (wrapping_sub s.offset base_offset) page.offset

-- The page that holds the slice. The `assert_eq!` refuses a slice longer than a page, or empty.
unfoldable pub to_page : LogicalSlice → ℕ → LogicalAddress → Result Page
to_page s pagesize base_offset =
    let len = align_up s.len pagesize in
    elim (len == pagesize) [
      | true ↦ ok (new_page (align_down (wrapping_sub s.offset base_offset) pagesize) len)
      | false ↦ panic
    ]

unfoldable pub page_aligned : LogicalSlice → ℕ → LogicalSlice
page_aligned s pagesize = new_slice (align_down s.offset pagesize) (align_up s.len pagesize)

-- `BlockLogicalSlice` and `ByteLogicalSlice` only wrap a slice, and are read as the slice.
pub data StoredLogicalSlice : Type 0 where
  block : LogicalSlice → StoredLogicalSlice
  byte : LogicalSlice → StoredLogicalSlice

-- `StoredLogicalSlice::new`
unfoldable pub new_stored : LogicalSlice → Bool → StoredLogicalSlice
new_stored s true = byte s
new_stored s false = block s

unfoldable pub raw : StoredLogicalSlice → LogicalSlice
raw (block s) = s
raw (byte s) = s

unfoldable pub unwrap_byte : StoredLogicalSlice → Result LogicalSlice
unwrap_byte (block s) = panic
unwrap_byte (byte s) = ok s

-- A slice of the same kind, as `get_backing` and `flush` rebuild it.
unfoldable pub same_kind : StoredLogicalSlice → LogicalSlice → StoredLogicalSlice
same_kind (block _) s = block s
same_kind (byte _) s = byte s
