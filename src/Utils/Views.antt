-- ===== src/Utils/Views.antt =====
-- src/utils.rs: `unsafe_utils`, the views of a value as bytes and of bytes as a value, and `crc`. How
-- the compiler lays a type out in memory is a parameter.
use librarius.Prelude.{ℕ, ◌≡◌, List, length, take, leb, if◌then◌else◌}
use librarius.Error.{Result, ok, panic, Action, assert, ◌>>◌}
use librarius.Source.{Source}
use librarius.Las.Slice.{LogicalSlice, split_at}
use librarius.Las.Space.{LogicalAddressSpace, write_through}

-- `size_of::<T>()`, and the bytes of a value.
pub record Layout (T : Type 0) : Type 0 where
  pub size_of : ℕ
  pub to_bytes : T → List ℕ
  pub from_bytes : List ℕ → T
  pub length-to_bytes : (x : T) → length (to_bytes x) ≡ size_of
  pub from_bytes-to_bytes : (x : T) → from_bytes (to_bytes x) ≡ x

-- `&mut T`, by the memory it points to.
pub record MutView (T : Type 0) : Type 0 where
  pub memory : LogicalSlice

module _ {T : Type 0} ⦃layout : Layout T⦄ where
  unfoldable pub any_as_slice : T → List ℕ
  any_as_slice x = layout.to_bytes x

  -- The source takes the address and does not look at the length. A view of memory that is too
  -- short for the type is undefined behaviour there, and a panic here.
  unfoldable pub any_from_slice : List ℕ → Result T
  any_from_slice bytes =
      if leb layout.size_of (length bytes)
      then ok (layout.from_bytes (take layout.size_of bytes))
      else panic

  abbrev pub any_from_slice_mut : LogicalSlice → MutView T
  any_from_slice_mut memory = record { memory = memory }

  -- `*view = x`
  unfoldable pub assign :
      {S : Type 0} ⦃src : Source S⦄ → MutView T → T → Action (LogicalAddressSpace S) (Unit {0})
  unfolding any_as_slice
  assign view x =
      assert (leb layout.size_of view.memory.len)
      >> write_through (split_at view.memory layout.size_of).0 (any_as_slice x)

  -- `crc`, over the checksum of a buffer
  unfoldable pub crc : (List ℕ → ℕ) → T → ℕ
  unfolding any_as_slice
  crc crc_slice x = crc_slice (any_as_slice x)
