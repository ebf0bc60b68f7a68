-- ===== src/Vos/Reader/Chain.antt =====
-- The copies of an object as what stands in memory: pointers, copies and version slots.
pub mod Along
pub mod Frame
pub mod Publish
pub mod Bytes
pub mod Prepend
pub mod Moved
pub mod Fill
use librarius.Prelude.{
  ℕ, ◌<◌, ◌≡◌, refl, ap, ◌∙◌, arith, true, false, leb, List, [], ◌∷◌, length, drop, ◌⊎◌, inl, inr,
}
use librarius.Usize.{wrapping_add}
use librarius.Error.{ok}
use librarius.Source.{Source}
use librarius.Source.Contract.{Addressable}
use librarius.Las.Slice.{LogicalSlice, byte}
use librarius.Las.Space.{LogicalAddressSpace}
use librarius.Las.Space.Memory.{Holds, read-Holds}
use librarius.Vos.Pointer.{UntypedPointer, is_some, into_stored_slice_offset}
use librarius.Vos.Pointer.Words.{address_space}
use librarius.Vos.Place.{Place, cell, local, load}
use librarius.Vos.Place.Words.{Word, load_lem}
use librarius.Vos.Version.{Version, read_number}
use librarius.Vos.Version.Words.{direct_space}
use librarius.Vos.Version.Slot.{indirect, read_number-direct, read_number-indirect}
use librarius.Vos.Object.{ObjectSize, total, object_header_size, other_offset, header_from_slice}
use librarius.Vos.Reader.History.{Copy, History, ended, before}

module _ {S : Type 0} ⦃src : Source S⦄ (arr : Addressable S) (k : ℕ) where
  -- A place holds a word.
  abbrev pub PlaceHolds : LogicalAddressSpace S → Place → ℕ → Type 0
  PlaceHolds las (cell c) v = Word arr k las c v
  PlaceHolds las (local u) v = u ≡ v

  -- A version stands for a number: it is the number, or its slot holds it.
  pub data Numbered (las : LogicalAddressSpace S) : Version → ℕ → Type 0 where
    direct : (n : ℕ) → n < direct_space → Numbered las n n
    in_slot :
        (p n : ℕ)
        → p < address_space
        → n < direct_space
        → Word arr k las p n
        → Numbered las (indirect p) n

  pub data Chain (las : LogicalAddressSpace S) (size : ObjectSize)
      : Place → List Copy → Type 0 where
    last :
        {place : Place} (p : UntypedPointer)
        → PlaceHolds las place p
        → is_some p ≡ false
        → Chain las size place []
    link :
        {place : Place} {older : List Copy} (p : UntypedPointer) (s : LogicalSlice) (base : ℕ)
        (bytes : List ℕ) (number : ℕ)
        → PlaceHolds las place p
        → is_some p ≡ true
        → into_stored_slice_offset p (total size) object_header_size ≡ byte s
        → Holds arr las s k base bytes
        → leb object_header_size (length bytes) ≡ true
        → Numbered las (header_from_slice bytes).version number
        → Chain las size (cell (wrapping_add s.offset other_offset)) older
        → Chain las size place (
            record {
              number = number;
              found = record {
                userdata = drop object_header_size bytes;
                place = place;
                header = s.offset;
              };
            }
            ∷ older)

  pub PlaceHolds-load :
      (las : LogicalAddressSpace S) (place : Place) (v : ℕ)
      → PlaceHolds las place v
      → load place las ≡ (ok v, las)
  unfolding load
  PlaceHolds-load las (cell c) v w = load_lem arr k c v w
  PlaceHolds-load las (local u) v e = ap (λ (t : ℕ). (ok t, las)) e

  pub Numbered-read_number :
      (las : LogicalAddressSpace S) (v n : ℕ) → Numbered las v n → read_number 2 v las ≡ (ok n, las)
  Numbered-read_number las _ n (direct _ h) = read_number-direct arr k las 1 n h
  Numbered-read_number las _ n (in_slot p _ hp hn w) = read_number-indirect arr k p n hp hn w

  -- What stands in memory is what a reader finds.
  pub Chain-History :
      (las : LogicalAddressSpace S) (size : ObjectSize) (place : Place) (copies : List Copy)
      → Chain las size place copies
      → History las size place copies
  Chain-History las size place [] (last p w none_there) =
      ended p (PlaceHolds-load las place p w) none_there
  Chain-History las size place (c ∷ older)
        (link p s base bytes number w there kind held long num rest) =
      before p s bytes number (PlaceHolds-load las place p w) there kind
        (read-Holds arr las s k base bytes held) long (Numbered-read_number las _ number num)
        (Chain-History las size (cell (wrapping_add s.offset other_offset)) older rest)
