-- ===== src/Vos/Reader/Chain/Moved.antt =====
-- The copies that another pointer of the same value leads to, and their version slots.
use librarius.Prelude.{ℕ, subst, List, [], ◌∷◌}
use librarius.Usize.{wrapping_add}
use librarius.Source.{Source}
use librarius.Source.Contract.{Addressable}
use librarius.Las.Slice.{LogicalSlice, new_slice}
use librarius.Las.Space.{LogicalAddressSpace}
use librarius.Las.Space.Memory.{Disjoint}
use librarius.Vos.Place.{Place, cell, local}
use librarius.Vos.Object.{ObjectSize, other_offset}
use librarius.Vos.Reader.History.{Copy}
use librarius.Vos.Reader.Chain.{PlaceHolds, Numbered, direct, in_slot, Chain, last, link}
use librarius.Vos.Reader.Chain.Along.{Off, OnSlot, Along}
use librarius.Vos.Reader.Chain.Frame.{Frame, Frame-Chain, Frame-Numbered, Avoids}
use librarius.Vos.Reader.Chain.Publish.{Near}

-- The newest copy as a reader finds it that comes from another place.
abbrev pub moved : Place → List Copy → List Copy
moved place [] = []
moved place (c ∷ older) = record c { found = record (c.found) { place = place } } ∷ older

module _ {S : Type 0} ⦃src : Source S⦄ (arr : Addressable S) (k : ℕ) (P : LogicalSlice → Type 0)
    (V : ℕ → Type 0) where
  -- The copies, with what holds along them.
  abbrev pub Tracked : LogicalAddressSpace S → ObjectSize → Place → List Copy → Type 0
  Tracked las size place copies =
      (chain : Chain arr k las size place copies) × Along arr k P V chain

  pub Tracked-moved :
      (las : LogicalAddressSpace S) (size : ObjectSize) (p : ℕ) (place : Place) (copies : List Copy)
      → PlaceHolds arr k las place p
      → Off arr k P place
      → Tracked las size (local p) copies
      → Tracked las size place (moved place copies)
  Tracked-moved las size p place [] w off (last u same none_there, along) =
      (last u (subst (PlaceHolds arr k las place) same w) none_there, off)
  Tracked-moved las size p place (c ∷ older) w off
        (link u s base bytes number same there kind held long num rest, along) =
      (
        link u s base bytes number (subst (PlaceHolds arr k las place) same w) there kind held long
            num rest,
        (off, along.1, along.2, along.3),
      )

  OnSlot-Frame :
      (Q : LogicalSlice → Type 0) (las las' : LogicalAddressSpace S) (v n : ℕ)
      (frame : Frame arr k Q las las') (num : Numbered arr k las v n)
      (off : OnSlot arr k (λ q. Q (new_slice q 8)) num)
      → OnSlot arr k V num
      → OnSlot arr k V (Frame-Numbered arr k Q las las' v n frame num off)
  unfolding Frame-Numbered
  OnSlot-Frame Q las las' _ n frame (direct _ h) off b = tt
  OnSlot-Frame Q las las' _ n frame (in_slot p _ hp hn x) off b = b

  pub Along-Frame :
      (Q : LogicalSlice → Type 0) (las las' : LogicalAddressSpace S) (size : ObjectSize)
      (place : Place) (copies : List Copy) (frame : Frame arr k Q las las')
      (chain : Chain arr k las size place copies) (off : Avoids arr k Q chain)
      → Along arr k P V chain
      → Along arr k P V (Frame-Chain arr k Q las las' size place copies frame chain off)
  unfolding Frame-Chain
  Along-Frame Q las las' size place [] frame (last p x h) off b = b
  Along-Frame Q las las' size place (c ∷ older) frame
        (link p s base bytes number x there kind held long num rest) off b =
      (
        b.0,
        b.1,
        OnSlot-Frame Q las las' _ number frame num off.2 b.2,
        Along-Frame Q las las' size (cell (wrapping_add s.offset other_offset)) older frame rest
            off.3 b.3,
      )

  -- In another space that keeps them.
  pub Tracked-Frame :
      (Q : LogicalSlice → Type 0) (las las' : LogicalAddressSpace S) (size : ObjectSize)
      (place : Place) (copies : List Copy)
      → Frame arr k Q las las'
      → (x : Tracked las size place copies) → Avoids arr k Q x.0
      → Tracked las' size place copies
  Tracked-Frame Q las las' size place copies frame (chain, along) off = (
    Frame-Chain arr k Q las las' size place copies frame chain off,
    Along-Frame Q las las' size place copies frame chain off along,
  )

module _ {S : Type 0} ⦃src : Source S⦄ (arr : Addressable S) (k q : ℕ) where
  -- The copies, whose slots are the one at `q` or beside it.
  abbrev pub Beset : LogicalAddressSpace S → ObjectSize → Place → List Copy → Type 0
  Beset = Tracked arr k (Disjoint (new_slice q 8)) (Near arr k q)
