-- ===== src/Vos/Reader/Chain/Frame.antt =====
-- The copies of an object after a write elsewhere, and after a version slot of theirs is set.
use librarius.Prelude.{ℕ, List, [], ◌∷◌}
use librarius.Usize.{wrapping_add}
use librarius.Source.{Source}
use librarius.Source.Contract.{Addressable}
use librarius.Las.Slice.{LogicalSlice, new_slice}
use librarius.Las.Space.{LogicalAddressSpace}
use librarius.Las.Space.Memory.{Holds}
use librarius.Vos.Place.{Place, cell, local}
use librarius.Vos.Place.Words.{Word}
use librarius.Vos.Object.{ObjectSize, other_offset}
use librarius.Vos.Reader.History.{Copy}
use librarius.Vos.Reader.Chain.Along.{Off, OnSlot, Along}
use librarius.Vos.Reader.Chain.{PlaceHolds, Numbered, direct, in_slot, Chain, last, link}

module _ {S : Type 0} ⦃src : Source S⦄ (arr : Addressable S) (k : ℕ) where
  -- From one space to the other, what the slices of a kind hold is kept.
  abbrev pub Frame :
      (LogicalSlice → Type 0) → LogicalAddressSpace S → LogicalAddressSpace S → Type 0
  Frame P las las' =
      (t : LogicalSlice) (base : ℕ) (bytes : List ℕ)
      → P t
      → Holds arr las t k base bytes
      → Holds arr las' t k base bytes

  pub Frame-Word :
      (P : LogicalSlice → Type 0) (las las' : LogicalAddressSpace S) (c v : ℕ)
      → Frame P las las'
      → P (new_slice c 8)
      → Word arr k las c v
      → Word arr k las' c v
  Frame-Word P las las' c v frame apart x = record {
    base = x.base;
    bytes = x.bytes;
    there = frame (new_slice c 8) x.base x.bytes apart x.there;
    value = x.value;
  }

  pub Frame-PlaceHolds :
      (P : LogicalSlice → Type 0) (las las' : LogicalAddressSpace S) (place : Place) (v : ℕ)
      → Frame P las las'
      → Off arr k P place
      → PlaceHolds arr k las place v
      → PlaceHolds arr k las' place v
  Frame-PlaceHolds P las las' (cell c) v frame apart x = Frame-Word P las las' c v frame apart x
  Frame-PlaceHolds P las las' (local u) v frame apart x = x

  -- Copies that are kept whole.
  abbrev pub Avoids :
      {las : LogicalAddressSpace S} {size : ObjectSize} {place : Place} {copies : List Copy}
      → (LogicalSlice → Type 0)
      → Chain arr k las size place copies
      → Type 0
  Avoids P chain = Along arr k P (λ p. P (new_slice p 8)) chain

  unfoldable pub Frame-Numbered :
      (P : LogicalSlice → Type 0) (las las' : LogicalAddressSpace S) (v n : ℕ)
      → Frame P las las'
      → (num : Numbered arr k las v n) → OnSlot arr k (λ q. P (new_slice q 8)) num
      → Numbered arr k las' v n
  Frame-Numbered P las las' _ n frame (direct _ h) off = direct n h
  Frame-Numbered P las las' _ n frame (in_slot p _ hp hn x) off =
      in_slot p n hp hn (Frame-Word P las las' p n frame off x)

  -- The copies are then in the other space.
  unfoldable pub Frame-Chain :
      (P : LogicalSlice → Type 0) (las las' : LogicalAddressSpace S) (size : ObjectSize)
      (place : Place) (copies : List Copy)
      → Frame P las las'
      → (chain : Chain arr k las size place copies) → Avoids P chain
      → Chain arr k las' size place copies
  unfolding Frame-Numbered
  Frame-Chain P las las' size place [] frame (last p x h) off =
      last p (Frame-PlaceHolds P las las' place p frame off x) h
  Frame-Chain P las las' size place (c ∷ older) frame
        (link p s base bytes number x there kind held long num rest) off =
      link p s base bytes number (Frame-PlaceHolds P las las' place p frame off.0 x) there kind
        (frame s base bytes off.1 held) long (Frame-Numbered P las las' _ number frame num off.2)
        (Frame-Chain P las las' size (cell (wrapping_add s.offset other_offset)) older frame rest
          off.3)
