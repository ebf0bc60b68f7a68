-- ===== src/Bits/Step.antt =====
-- The lowest digit of `bit_and` and `bit_or`, from the digit recursion that the operations mean.
use Prim.Native.Nat.{max, digits, bit_and, bit_or, bit_and-bitwise, bit_or-bitwise}
use librarius.Prelude.{ℕ, zero, suc, ◌+◌, ◌*◌, ◌/◌, ◌%◌, ◌≤◌, ◌≡◌, refl, min, arith}

pub eq_zero : (a : ℕ) → a ≤ 0 → a ≡ 0
eq_zero a h = omega arith

-- Any fuel from the first argument on gives the same digits.
module _ (rest : ℕ → ℕ) (digit : ℕ → ℕ → ℕ) where
  enough : (a n b : ℕ) (k : ℕ) → k ≤ n → a ≤ k → digits rest digit n a b ≡ digits rest digit k a b
  enough zero zero b zero p q = refl
  enough zero (suc n) b zero p q = refl
  enough zero zero b (suc k) p q = absurd (omega arith)
  enough zero (suc n) b (suc k) p q = refl
  enough (suc a) n b zero p q = absurd (omega arith)
  enough (suc a) zero b (suc k) p q = absurd (omega arith)
  enough (suc a) (suc n) b (suc k) p q =
      omega (arith, enough (suc a / 2) n (b / 2) k (omega arith) (omega arith))

  -- One step of the recursion, on the fuel that the operations give it.
  one_digit :
      (x y : ℕ)
      → digits rest digit (suc x) (suc x) y
        ≡ digits rest digit (suc x / 2) (suc x / 2) (y / 2) * 2 + digit (suc x % 2) (y % 2)
  one_digit x y =
      omega (arith, enough (suc x / 2) x (y / 2) (suc x / 2) (omega arith) (omega arith))

pub zero-bit_or : (y : ℕ) → bit_or 0 y ≡ y
zero-bit_or y = bit_or-bitwise 0 y

-- No digit of zero is set, and so none of a conjunction with it.
zero-bit_and : (y : ℕ) → bit_and 0 y ≡ 0
zero-bit_and y = bit_and-bitwise 0 y

pub bit_and_step : (x y : ℕ) → bit_and x y ≡ 2 * bit_and (x / 2) (y / 2) + min (x % 2) (y % 2)
bit_and_step zero y = ground (arith, zero-bit_and y, zero-bit_and (y / 2))
bit_and_step (suc x) y = omega (
  arith,
  one_digit (λ _. zero) min x y,
  bit_and-bitwise (suc x / 2) (y / 2),
  bit_and-bitwise (suc x) y,
)

pub bit_or_step : (x y : ℕ) → bit_or x y ≡ 2 * bit_or (x / 2) (y / 2) + max (x % 2) (y % 2)
bit_or_step zero y = ground (arith, zero-bit_or y, zero-bit_or (y / 2))
bit_or_step (suc x) y = omega (
  arith,
  one_digit (λ c. c) max x y,
  bit_or-bitwise (suc x / 2) (y / 2),
  bit_or-bitwise (suc x) y,
)
