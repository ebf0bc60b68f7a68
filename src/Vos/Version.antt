-- ===== src/Vos/Version.antt =====
-- src/vos.rs: `Version`, by the value of its word: a number, or with the top bit set the address of
-- the version that it stands for.
pub mod Words
pub mod Slot
use Prim.Native.Nat.{bit_and, bit_or}
use librarius.Prelude.{ℕ, zero, suc, ◌*◌, ◌^◌, Bool, ◌==◌, ltb, if◌then◌else◌}
use librarius.Usize.{bit_not}
use librarius.Error.{Result, ok, panic, out_of_fuel, Action, pure, lift, ◌>>=◌}
use librarius.Source.{Source}
use librarius.Las.Slice.{unwrap_byte}
use librarius.Las.Space.{LogicalAddressSpace, read}
use librarius.Vos.Pointer.{UntypedPointer, into_stored_slice}
use librarius.Vos.Place.{Place, cell, load, store_word}

abbrev pub Version : Type 0
Version = ℕ

-- `size_of::<Version>()`
abbrev pub version_size : ℕ
version_size = 8

abbrev pub version_type_mask : ℕ
version_type_mask = 0b1 * 2 ^ 63

abbrev pub version_data_mask : ℕ
version_data_mask = bit_not version_type_mask

abbrev pub version_type_direct : ℕ
version_type_direct = 0b0 * 2 ^ 63

abbrev pub version_type_indirect : ℕ
version_type_indirect = 0b1 * 2 ^ 63

-- `Version::new`
abbrev pub new_version : Version
new_version = 0

abbrev pub new_base : Version
new_base = 1

unfoldable pub type_bytes : Version → ℕ
type_bytes v = bit_and v version_type_mask

unfoldable pub data_bytes : Version → ℕ
data_bytes v = bit_and v version_data_mask

unfoldable pub new_indirect : UntypedPointer → Result Version
new_indirect real_version =
    if bit_and real_version version_type_mask == 0
    then ok (bit_or real_version version_type_indirect)
    else panic

module _ {S : Type 0} ⦃src : Source S⦄ where
  -- `Version::read`, on fuel for the versions that it goes through.
  unfoldable pub read_number : ℕ → Version → Action (LogicalAddressSpace S) ℕ
  read_number zero v las = (out_of_fuel, las)
  read_number (suc fuel) v las =
      let through : Action (LogicalAddressSpace S) ℕ = do
        s ← lift (unwrap_byte (into_stored_slice (data_bytes v) version_size))
        real_version ← load (cell s.offset)
        read_number fuel real_version
      in if type_bytes v == version_type_direct then (ok (data_bytes v), las) else through las

  -- `Version::commit`, on the same fuel.
  unfoldable pub commit : ℕ → Place → ℕ → Action (LogicalAddressSpace S) Place
  commit zero place new las = (out_of_fuel, las)
  commit (suc fuel) place new las =
      (do
        v ← load place
        let through : Action (LogicalAddressSpace S) Place = do
          s ← lift (unwrap_byte (into_stored_slice (data_bytes v) version_size))
          _ ← read s
          commit fuel (cell s.offset) new
        if type_bytes v == version_type_direct
            then store_word place (bit_or new version_type_direct)
            else through)
        las

  unfoldable pub newer : ℕ → Version → Version → Action (LogicalAddressSpace S) Bool
  unfolding read_number
  newer fuel self other = do s ← read_number fuel self; o ← read_number fuel other; pure (ltb o s)
