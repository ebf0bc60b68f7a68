-- ===== src/Vos/Pointer.antt =====
-- src/vos.rs: `UntypedPointer`, by the value of its word: an address in the low 54 bits, two bits for
-- the kind, and eight for a reference count.
pub mod Words
use Prim.Native.Nat.{bit_and, bit_or}
use librarius.Prelude.{ℕ, ◌*◌, ◌^◌, Bool, not, ◌==◌}
use librarius.Usize.{wrapping_add, wrapping_sub, bit_not}
use librarius.Las.Slice.{LogicalAddress, new_slice, StoredLogicalSlice, block, byte, new_stored}

abbrev pub UntypedPointer : Type 0
UntypedPointer = ℕ

-- `size_of::<UntypedPointer>()`
abbrev pub pointer_size : ℕ
pointer_size = 8

abbrev pub pointer_type_mask : ℕ
pointer_type_mask = 0b11 * 2 ^ 54

abbrev pub pointer_refcount_mask : ℕ
pointer_refcount_mask = 0b11111111 * 2 ^ 56

abbrev pub pointer_byte_addressable : ℕ
pointer_byte_addressable = 0b00 * 2 ^ 54

abbrev pub pointer_block : ℕ
pointer_block = 0b01 * 2 ^ 54

abbrev pub pointer_log : ℕ
pointer_log = 0b10 * 2 ^ 54

abbrev pub pointer_address_mask : ℕ
pointer_address_mask = bit_not (bit_or pointer_type_mask pointer_refcount_mask)

unfoldable pub type_bytes : UntypedPointer → ℕ
type_bytes p = bit_and p pointer_type_mask

unfoldable pub new_byte : LogicalAddress → UntypedPointer
new_byte address = bit_or address pointer_byte_addressable

unfoldable pub new_block : LogicalAddress → UntypedPointer
new_block address = bit_or address pointer_block

unfoldable pub new_log : LogicalAddress → UntypedPointer
new_log address = bit_or address pointer_log

abbrev pub new_none : UntypedPointer
new_none = 0

unfoldable pub address : UntypedPointer → LogicalAddress
address p = bit_and p pointer_address_mask

unfoldable pub is_some : UntypedPointer → Bool
unfolding address
is_some p = not (address p == 0)

unfoldable pub is_byte_addressable : UntypedPointer → Bool
unfolding type_bytes
is_byte_addressable p = type_bytes p == pointer_byte_addressable

unfoldable pub is_block : UntypedPointer → Bool
unfolding type_bytes
is_block p = type_bytes p == pointer_block

unfoldable pub into_stored_slice : UntypedPointer → ℕ → StoredLogicalSlice
into_stored_slice p len = new_stored (new_slice (address p) len) (is_byte_addressable p)

unfoldable pub into_stored_slice_offset : UntypedPointer → ℕ → ℕ → StoredLogicalSlice
into_stored_slice_offset p len offset =
    new_stored (new_slice (wrapping_sub (address p) offset) (wrapping_add len offset))
      (is_byte_addressable p)

unfoldable pub new_from_stored : StoredLogicalSlice → UntypedPointer
unfolding new_block new_byte
new_from_stored (block s) = new_block s.offset
new_from_stored (byte s) = new_byte s.offset
