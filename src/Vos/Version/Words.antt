-- ===== src/Vos/Version/Words.antt =====
-- The top bit of a `Version` as arithmetic on its word.
use librarius.Prelude.{ℕ, ◌+◌, ◌*◌, ◌/◌, ◌%◌, ◌^◌, ◌<◌, ◌≡◌, ap, ◌∙◌, arith}
use librarius.Bits.{bit_and_low, bit_and_high, bit_or_fields}
use librarius.Error.{ok}
use librarius.Vos.Version.{
  Version, version_type_mask, version_type_direct, type_bytes, data_bytes, new_indirect,
}

abbrev pub direct_space : ℕ
direct_space = 2 ^ 63

pub data_bytes_lem : (v : Version) → data_bytes v ≡ v % 2 ^ 63
unfolding data_bytes
data_bytes_lem v = bit_and_low 63 v

pub type_bytes_lem : (v : Version) → type_bytes v ≡ v / 2 ^ 63 % 2 * 2 ^ 63
unfolding type_bytes
type_bytes_lem v = bit_and_high 63 v 1 ∙ ap (λ (t : ℕ). t * 2 ^ 63) (bit_and_low 1 (v / 2 ^ 63))

-- A pointer below 2^63 makes an indirect version, whose data bits are the pointer and whose type
-- bit is set.
pub new_indirect_lem :
    (p : ℕ)
    → p < direct_space
    → (v : Version) × (new_indirect p ≡ ok v)
      × (data_bytes v ≡ p)
      × (type_bytes v ≡ version_type_mask)
unfolding new_indirect
new_indirect_lem p h = (
  p + 2 ^ 63,
  ground (arith, bit_and_high 63 p 1, bit_and_low 1 (p / 2 ^ 63), bit_or_fields 63 p 1 h),
  omega (arith, data_bytes_lem (p + 2 ^ 63)),
  omega (arith, type_bytes_lem (p + 2 ^ 63)),
)

pub new_indirect_sum : (p : ℕ) → p < direct_space → new_indirect p ≡ ok (p + 2 ^ 63)
unfolding new_indirect
new_indirect_sum p h =
    ground (arith, bit_and_high 63 p 1, bit_and_low 1 (p / 2 ^ 63), bit_or_fields 63 p 1 h)

-- A number below the top bit is a direct version and is its own value.
pub direct_lem :
    (v : Version) → v < direct_space → (type_bytes v ≡ version_type_direct) × (data_bytes v ≡ v)
direct_lem v h = (omega (arith, type_bytes_lem v), omega (arith, data_bytes_lem v))

pub indirect_lem :
    (p : ℕ)
    → p < direct_space
    → (type_bytes (p + 2 ^ 63) ≡ version_type_mask) × (data_bytes (p + 2 ^ 63) ≡ p)
indirect_lem p h =
    (omega (arith, type_bytes_lem (p + 2 ^ 63)), omega (arith, data_bytes_lem (p + 2 ^ 63)))
