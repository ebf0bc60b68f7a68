-- ===== src/Bits.antt =====
-- `&` and `|` of `usize` values as arithmetic: low masks, shifted masks and disjoint fields, for
-- every position. The masks of `vos.rs` and of `utils::math` are instances.
mod Step
use Step.{bit_and_step, bit_or_step}
use Prim.Native.Nat.{bit_and, bit_or}
use native.Mathlib.Nat.{pow-suc, one-le-pow}
use librarius.Prelude.{ℕ, zero, suc, ◌+◌, ◌-◌, ◌*◌, ◌/◌, ◌%◌, ◌^◌, ◌≤◌, ◌<◌, ◌≡◌, refl, ap, arith}

bit_and-zero : (n a : ℕ) → a ≤ n → bit_and a 0 ≡ 0
bit_and-zero zero a h = omega (arith, ap (λ (t : ℕ). bit_and t 0) (Step.eq_zero a h))
bit_and-zero (suc n) a h = omega (arith, bit_and_step a 0, bit_and-zero n (a / 2))

-- A shift by one more place doubles.
double_shift : (m k : ℕ) → m * 2 ^ suc k ≡ 2 * (m * 2 ^ k)
double_shift m k = omega (arith, ap (λ (t : ℕ). m * t) (pow-suc 2 k))

pow_pos : (k : ℕ) → 1 ≤ 2 ^ k
pow_pos k = one-le-pow k 2 (omega arith)

-- `a & (m << k)`, for a number given by its part above and its part below the position.
bit_and_parts :
    (k q r m : ℕ) → r < 2 ^ k → bit_and (q * 2 ^ k + r) (m * 2 ^ k) ≡ bit_and q m * 2 ^ k
bit_and_parts zero q r m h = ground arith
bit_and_parts (suc k) q r m h = ground (
  arith,
  bit_and_step (q * 2 ^ suc k + r) (m * 2 ^ suc k),
  double_shift q k,
  double_shift m k,
  double_shift (bit_and q m) k,
  bit_and_parts k q (r / 2) m (omega (arith, pow-suc 2 k)),
)

-- `a & (m << k)`
pub bit_and_high : (k a m : ℕ) → bit_and a (m * 2 ^ k) ≡ bit_and (a / 2 ^ k) m * 2 ^ k
bit_and_high k a m = ground (arith, pow_pos k, bit_and_parts k (a / 2 ^ k) (a % 2 ^ k) m)

low_parts : (k q r : ℕ) → r < 2 ^ k → bit_and (q * 2 ^ k + r) (2 ^ k - 1) ≡ r
low_parts zero q r h = ground (arith, bit_and-zero q q)
low_parts (suc k) q r h = ground (
  arith,
  bit_and_step (q * 2 ^ suc k + r) (2 ^ suc k - 1),
  double_shift q k,
  pow-suc 2 k,
  pow_pos k,
  low_parts k q (r / 2) (omega (arith, pow-suc 2 k)),
)

-- `a & ((1 << k) - 1)`
pub bit_and_low : (k a : ℕ) → bit_and a (2 ^ k - 1) ≡ a % 2 ^ k
bit_and_low k a = ground (arith, pow_pos k, low_parts k (a / 2 ^ k) (a % 2 ^ k))

bit_or-zero : (n a : ℕ) → a ≤ n → bit_or a 0 ≡ a
bit_or-zero n zero h = Step.zero-bit_or 0
bit_or-zero zero (suc a) h = absurd (omega arith)
bit_or-zero (suc n) (suc a) h =
    omega (arith, bit_or_step (suc a) 0, bit_or-zero n (suc a / 2) (omega arith))

-- `r | (q << k)`
pub bit_or_fields : (k r q : ℕ) → r < 2 ^ k → bit_or r (q * 2 ^ k) ≡ r + q * 2 ^ k
bit_or_fields zero zero q h = ground (arith, Step.zero-bit_or (q * 1))
bit_or_fields zero (suc r) q h = absurd (omega arith)
bit_or_fields (suc k) r q h = ground (
  arith,
  bit_or_step r (q * 2 ^ suc k),
  double_shift q k,
  bit_or_fields k (r / 2) q (omega (arith, pow-suc 2 k)),
)

-- `a | 0`
pub bit_or_none : (a : ℕ) → bit_or a 0 ≡ a
bit_or_none a = bit_or-zero a a (omega arith)
