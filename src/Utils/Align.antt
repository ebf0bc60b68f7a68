-- ===== src/Utils/Align.antt =====
-- The bit formulas of `math::align_up` and `math::align_down` against division.
use native.Mathlib.Nat.{
  add-suc, pow-suc, one-le-pow, pow-le-pow_right, mod-eq_of_lt, mul-mod_left, div-lt_iff_lt-mul,
  le-div_iff_mul-le, lt-div-mul-add, div-mul-le_self,
}
use librarius.Prelude.{ℕ, zero, suc, ◌+◌, ◌-◌, ◌*◌, ◌/◌, ◌%◌, ◌^◌, ◌≤◌, ◌<◌, ◌≡◌, ap, ◌∙◌, arith}
use librarius.Usize.{word, wrapping_add, wrapping_sub, bit_not}
use librarius.Bits.{bit_and_low, bit_and_high}
use librarius.Utils.{align_up, align_down}

-- A page size is a power of two below the word.
pub pow_mul : (j k : ℕ) → 2 ^ j * 2 ^ k ≡ 2 ^ (j + k)
pow_mul j zero = ground arith
pow_mul j (suc k) = omega (
  arith,
  pow-suc 2 k,
  ap (λ (t : ℕ). 2 ^ j * t) (pow-suc 2 k),
  pow_mul j k,
  pow-suc 2 (j + k),
  ap (λ (t : ℕ). 2 ^ t) (add-suc j k),
)

whole : (k : ℕ) → k < 64 → 2 ^ (64 - k) * 2 ^ k ≡ word
whole k small =
    let e : 64 - k + k ≡ 64 = omega arith in pow_mul (64 - k) k ∙ ap (λ (t : ℕ). 2 ^ t) e

pub pow_bounds : (k : ℕ) → k < 64 → (1 ≤ 2 ^ k) × (2 ^ k ≤ 2 ^ 63)
pow_bounds k small = (
  one-le-pow k 2 (omega arith),
  pow-le-pow_right {n = 2} (omega arith) {i = k} {j = 63} (omega arith),
)

-- A value from one page size up to two falls in the second page.
pub one_page : (v p : ℕ) → p ≤ v → v < 2 * p → v / p ≡ 1
one_page v p h l =
    let low = (le-div_iff_mul-le {k = p} {x = 1} {y = v} (omega arith)).1 (omega arith) in
    let high = (div-lt_iff_lt-mul {k = p} {x = v} {y = 2} (omega arith)).1 (omega arith) in
    omega (arith, low, high)

minus_one : (q p : ℕ) → 1 ≤ q → (q - 1) * p ≡ q * p - p
minus_one zero p h = absurd (omega arith)
minus_one (suc q) p h =
    let e : suc q - 1 ≡ q = omega arith in omega (arith, ap (λ (t : ℕ). t * p) e)

high_mask : (k : ℕ) → k < 64 → bit_not (wrapping_sub (2 ^ k) 1) ≡ (2 ^ (64 - k) - 1) * 2 ^ k
high_mask k small =
    let pos : 1 ≤ 2 ^ (64 - k) = one-le-pow (64 - k) 2 (omega arith) in
    omega (arith, pow_bounds k small, whole k small, minus_one (2 ^ (64 - k)) (2 ^ k) pos)

high_part : (k value : ℕ) → k < 64 → value < word → value / 2 ^ k % 2 ^ (64 - k) ≡ value / 2 ^ k
high_part k value small fits =
    mod-eq_of_lt ((div-lt_iff_lt-mul (pow_bounds k small).0).1 (rw (whole k small) fits))

pub align_down_lem :
    (k value : ℕ) → k < 64 → value < word → align_down value (2 ^ k) ≡ value / 2 ^ k * 2 ^ k
unfolding align_down
align_down_lem k value small fits = rw (high_mask k small) (
    bit_and_high k value (2 ^ (64 - k) - 1)
    ∙ ap (λ (t : ℕ). t * 2 ^ k)
        (bit_and_low (64 - k) (value / 2 ^ k) ∙ high_part k value small fits))

-- The multiple of `p` at or below `v`.
floor_bounds : (v p : ℕ) → 1 ≤ p → (v / p * p % p ≡ 0) × (v / p * p ≤ v) × (v < v / p * p + p)
floor_bounds v p h = (mul-mod_left (v / p) p, div-mul-le_self v p, lt-div-mul-add h)

-- For a page size 2^k, k below 64, and a value below 2^64, align_down is a multiple of the page
-- size, at most the value and less than a page below it.
pub align_down_bounds :
    (k value : ℕ)
    → k < 64
    → value < word
    → (align_down value (2 ^ k) % 2 ^ k ≡ 0)
      × (align_down value (2 ^ k) ≤ value)
      × (value < align_down value (2 ^ k) + 2 ^ k)
align_down_bounds k value small fits =
    rw (align_down_lem k value small fits) (floor_bounds value (2 ^ k) (pow_bounds k small).0)

pub align_up_lem :
    (k value : ℕ)
    → k < 64
    → value + 2 ^ k ≤ word
    → align_up value (2 ^ k) ≡ (value + 2 ^ k - 1) / 2 ^ k * 2 ^ k
unfolding align_up align_down
align_up_lem k value small fits =
    let e : wrapping_sub (wrapping_add value (2 ^ k)) 1 ≡ value + 2 ^ k - 1 =
      omega (arith, pow_bounds k small) in
    ap (λ (t : ℕ). align_down t (2 ^ k)) e
    ∙ align_down_lem k (value + 2 ^ k - 1) small (omega (arith, pow_bounds k small))

-- For a page size 2^k, k below 64, and a value whose sum with it is at most 2^64, align_up is a
-- multiple of the page size, at least the value and less than a page above it.
pub align_up_bounds :
    (k value : ℕ)
    → k < 64
    → value + 2 ^ k ≤ word
    → (align_up value (2 ^ k) % 2 ^ k ≡ 0)
      × (value ≤ align_up value (2 ^ k))
      × (align_up value (2 ^ k) < value + 2 ^ k)
align_up_bounds k value small fits = rw (align_up_lem k value small fits) (
    let b = floor_bounds (value + 2 ^ k - 1) (2 ^ k) (pow_bounds k small).0 in
    (b.0, omega arith, omega (arith, pow_bounds k small)))
