-- ===== src/Vos/Reader/Chain/Along.antt =====
-- What holds of every place, copy and version slot along the copies of an object.
use librarius.Prelude.{ℕ, List, [], ◌∷◌}
use librarius.Usize.{wrapping_add}
use librarius.Source.{Source}
use librarius.Source.Contract.{Addressable}
use librarius.Las.Slice.{LogicalSlice, new_slice}
use librarius.Las.Space.{LogicalAddressSpace}
use librarius.Vos.Place.{Place, cell, local}
use librarius.Vos.Version.{Version}
use librarius.Vos.Object.{ObjectSize, other_offset}
use librarius.Vos.Reader.History.{Copy}
use librarius.Vos.Reader.Chain.{Numbered, direct, in_slot, Chain, last, link}

module _ {S : Type 0} ⦃src : Source S⦄ (arr : Addressable S) (k : ℕ) where
  -- Of the memory of a place, if it has one.
  abbrev pub Off : (LogicalSlice → Type 0) → Place → Type 0
  Off P (cell c) = P (new_slice c 8)
  Off P (local _) = Unit

  -- Of the slot of a version, if it has one.
  abbrev pub OnSlot :
      {las : LogicalAddressSpace S} {v : Version} {n : ℕ}
      → (ℕ → Type 0)
      → Numbered arr k las v n
      → Type 0
  OnSlot V (direct _ _) = Unit
  OnSlot V (in_slot p _ _ _ _) = V p

  abbrev pub Along :
      {las : LogicalAddressSpace S} {size : ObjectSize} {place : Place} {copies : List Copy}
      → (LogicalSlice → Type 0)
      → (ℕ → Type 0)
      → Chain arr k las size place copies
      → Type 0
  Along {place = place} P V (last p x h) = Off P place
  Along {place = place} P V (link p s base bytes number x there kind held long num rest) =
      Off P place × P s × OnSlot V num × Along P V rest

  pub Off-map :
      (P Q : LogicalSlice → Type 0) (place : Place)
      → ((u : LogicalSlice) → P u → Q u)
      → Off P place
      → Off Q place
  Off-map P Q (cell c) f x = f (new_slice c 8) x
  Off-map P Q (local u) f x = tt

  OnSlot-map :
      (V W : ℕ → Type 0) (las : LogicalAddressSpace S) (v n : ℕ) (num : Numbered arr k las v n)
      → ((q : ℕ) → V q → W q)
      → OnSlot V num
      → OnSlot W num
  OnSlot-map V W las _ n (direct _ h) f x = tt
  OnSlot-map V W las _ n (in_slot p _ hp hn w) f x = f p x

  pub Along-map :
      (P Q : LogicalSlice → Type 0) (V W : ℕ → Type 0) (las : LogicalAddressSpace S)
      (size : ObjectSize) (place : Place) (copies : List Copy)
      (chain : Chain arr k las size place copies)
      → ((u : LogicalSlice) → P u → Q u)
      → ((q : ℕ) → V q → W q)
      → Along P V chain
      → Along Q W chain
  Along-map P Q V W las size place [] (last p x h) f g off = Off-map P Q place f off
  Along-map P Q V W las size place (c ∷ older)
        (link p s base bytes number x there kind held long num rest) f g off =
      (
        Off-map P Q place f off.0,
        f s off.1,
        OnSlot-map V W las _ number num g off.2,
        Along-map P Q V W las size (cell (wrapping_add s.offset other_offset)) older rest f g off.3,
      )
