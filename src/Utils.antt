-- ===== src/Utils.antt =====
-- src/utils.rs: `math::align_up`, `math::align_down` and `OptionExt::get_or_insert_with_result`.
pub mod Align
pub mod Views
use Prim.Native.Nat.{bit_and}
use librarius.Prelude.{ℕ, Option, none, some}
use librarius.Usize.{wrapping_add, wrapping_sub, bit_not}
use librarius.Error.{Action, pure, ◌>>=◌}

-- `((value + alignment) - 1) & !(alignment - 1)`
unfoldable pub align_up : ℕ → ℕ → ℕ
align_up value alignment =
    bit_and (wrapping_sub (wrapping_add value alignment) 1) (bit_not (wrapping_sub alignment 1))

-- `value & !(alignment - 1)`
unfoldable pub align_down : ℕ → ℕ → ℕ
align_down value alignment = bit_and value (bit_not (wrapping_sub alignment 1))

-- The value that the option holds afterwards; the call `f` is made only where it held none.
unfoldable pub get_or_insert_with_result : {S T : Type 0} → Option T → Action S T → Action S T
get_or_insert_with_result none f = do v ← f; pure v
get_or_insert_with_result (some v) f = pure v
