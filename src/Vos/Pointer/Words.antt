-- ===== src/Vos/Pointer/Words.antt =====
-- The bit fields of an `UntypedPointer` as arithmetic on its word.
use librarius.Prelude.{
  ℕ, ◌+◌, ◌*◌, ◌/◌, ◌%◌, ◌^◌, ◌<◌, ◌≡◌, ap, ◌∙◌, true, false, arith, eq→==, ne→==,
}
use librarius.Bits.{bit_and_low, bit_and_high, bit_or_fields, bit_or_none}
use librarius.Las.Slice.{StoredLogicalSlice, block, byte, raw, new_stored}
use librarius.Vos.Pointer.{
  UntypedPointer, type_bytes, new_byte, new_block, new_log, address, is_byte_addressable, is_block,
  into_stored_slice, new_from_stored,
}

abbrev pub address_space : ℕ
address_space = 2 ^ 54

pub address_lem : (p : UntypedPointer) → address p ≡ p % 2 ^ 54
unfolding address
address_lem p = bit_and_low 54 p

pub type_bytes_lem : (p : UntypedPointer) → type_bytes p ≡ p / 2 ^ 54 % 4 * 2 ^ 54
unfolding type_bytes
type_bytes_lem p = bit_and_high 54 p 3 ∙ ap (λ (t : ℕ). t * 2 ^ 54) (bit_and_low 2 (p / 2 ^ 54))

pub new_byte_lem : (a : ℕ) → new_byte a ≡ a
unfolding new_byte
new_byte_lem a = bit_or_none a

pub new_block_lem : (a : ℕ) → a < address_space → new_block a ≡ a + 2 ^ 54
unfolding new_block
new_block_lem a h = bit_or_fields 54 a 1 h

pub new_log_lem : (a : ℕ) → a < address_space → new_log a ≡ a + 2 * 2 ^ 54
unfolding new_log
new_log_lem a h = bit_or_fields 54 a 2 h

pub is_byte_addressable_lem :
    (p : UntypedPointer) → p / 2 ^ 54 % 4 ≡ 0 → is_byte_addressable p ≡ true
unfolding is_byte_addressable
is_byte_addressable_lem p h = eq→== _ _ (omega (arith, type_bytes_lem p))

pub not_byte_addressable : (p : UntypedPointer) → 0 < p / 2 ^ 54 % 4 → is_byte_addressable p ≡ false
unfolding is_byte_addressable
not_byte_addressable p h = ne→== _ _ (omega (arith, type_bytes_lem p))

pub is_block_lem : (p : UntypedPointer) → p / 2 ^ 54 % 4 ≡ 1 → is_block p ≡ true
unfolding is_block
is_block_lem p h = eq→== _ _ (omega (arith, type_bytes_lem p))

pub block_kind : (p : UntypedPointer) → is_block p ≡ true → p / 2 ^ 54 % 4 ≡ 1
unfolding is_block
block_kind p h = ground (arith, type_bytes_lem p)

-- A stored slice whose address is below 2^54 comes back, with its kind, from the pointer that is
-- made of it.
pub into_stored_slice-new_from_stored :
    (s : StoredLogicalSlice)
    → (raw s).offset < address_space
    → into_stored_slice (new_from_stored s) (raw s).len ≡ s
unfolding into_stored_slice new_from_stored raw new_stored
into_stored_slice-new_from_stored (block s) h = ground (
  arith,
  new_block_lem s.offset h,
  address_lem (new_block s.offset),
  not_byte_addressable (new_block s.offset),
)
into_stored_slice-new_from_stored (byte s) h = ground (
  arith,
  new_byte_lem s.offset,
  address_lem (new_byte s.offset),
  is_byte_addressable_lem (new_byte s.offset),
)
