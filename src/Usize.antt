-- ===== src/Usize.antt =====
-- `usize` arithmetic on a 64-bit target: it wraps, as in the release profile. (The debug profile
-- panics where it would wrap; under the bounds of the theorems neither happens.)
use librarius.Prelude.{ℕ, ◌+◌, ◌-◌, ◌*◌, ◌%◌, ◌^◌}

abbrev pub word : ℕ
word = 2 ^ 64

abbrev pub wrapping_add : ℕ → ℕ → ℕ
wrapping_add a b = (a + b) % word

abbrev pub wrapping_sub : ℕ → ℕ → ℕ
wrapping_sub a b = (a + word - b) % word

abbrev pub wrapping_mul : ℕ → ℕ → ℕ
wrapping_mul a b = a * b % word

-- `!a`
abbrev pub bit_not : ℕ → ℕ
bit_not a = word - 1 - a
