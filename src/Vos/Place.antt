-- ===== src/Vos/Place.antt =====
-- Words behind references: `AtomicUsize` loads, stores and compare-and-swap, all of them
-- sequentially consistent, each one step.
pub mod Words
use librarius.Prelude.{ℕ, Bool, true, false, ◌==◌, le_bytes, le_value, if◌then◌else◌}
use librarius.Error.{Action, pure, ◌>>=◌, ◌>>◌}
use librarius.Source.{Source}
use librarius.Las.Slice.{LogicalAddress, new_slice}
use librarius.Las.Space.{LogicalAddressSpace, read, write_through}

pub data Place : Type 0 where
  cell : LogicalAddress → Place
  local : (value : ℕ) → Place

module _ {S : Type 0} ⦃src : Source S⦄ where
  unfoldable pub load : Place → Action (LogicalAddressSpace S) ℕ
  load (cell a) = do bytes ← read (new_slice a 8); pure (le_value bytes)
  load (local v) = pure v

  -- The place afterwards: a local copy takes the new value itself.
  unfoldable pub store_word : Place → ℕ → Action (LogicalAddressSpace S) Place
  store_word (cell a) v = do write_through (new_slice a 8) (le_bytes 8 v); pure (cell a)
  store_word (local _) v = pure (local v)

  -- `UntypedPointer::compare_and_swap`
  unfoldable pub compare_and_swap : Place → ℕ → ℕ → Action (LogicalAddressSpace S) (Bool × Place)
  unfolding load store_word
  compare_and_swap place current new = do
    old ← load place
    if old == current
        then (do place' ← store_word place new; pure (true, place'))
        else pure (false, place)
