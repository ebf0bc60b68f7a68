-- ===== src/Vos/Reader/Chain/Prepend.antt =====
-- A new copy in front of the copies of an object.
use librarius.Prelude.{
  ℕ, ◌+◌, ◌-◌, ◌^◌, ◌<◌, ◌≡◌, refl, sym, ap, subst, ◌∙◌, arith, List, ◌∷◌, ◌++◌, take, drop, slice,
  length-append, take-slice, drop-slice, same_slice, inl, inr, le_value,
}
use librarius.Usize.{word, wrapping_add}
use librarius.Source.{Source}
use librarius.Source.Contract.{Addressable}
use librarius.Source.Allocator.{SourceAllocator}
use librarius.Las.Slice.{LogicalSlice, new_slice}
use librarius.Las.Space.{LogicalAddressSpace}
use librarius.Las.Space.Memory.{Disjoint, Holds}
use librarius.Las.Space.Region.{Region, Region-Holds, Holds-Region}
use librarius.Vos.Pointer.{is_some}
use librarius.Vos.Pointer.Words.{address_space, address_lem}
use librarius.Vos.Place.{Place, cell, local}
use librarius.Vos.Place.Words.{Word}
use librarius.Vos.Version.{Version}
use librarius.Vos.Object.{
  ObjectSize, ObjectHeader, total, object_header_size, other_offset, header_bytes, new_header,
  header_from_slice,
}
use librarius.Vos.Object.RoundTrip.{header_from_slice-header_bytes}
use librarius.Vos.Alloc.Copied.{length-header_bytes}
use librarius.Vos.Reader.History.{Copy}
use librarius.Vos.Version.Slot.{indirect}
use librarius.Vos.Reader.Chain.{PlaceHolds, Numbered, in_slot, Chain, link}
use librarius.Vos.Reader.Chain.Bytes.{object_slice_lem, drop-header_bytes}
use librarius.Vos.Reader.Chain.Along.{Off, OnSlot, Along}
use librarius.Vos.Reader.Chain.Publish.{SlotIs, HeadIs, AllBeside, Near}
use librarius.Vos.Reader.Chain.Moved.{moved, Tracked, Tracked-moved, Beset}

module _ {S : Type 0} ⦃src : Source S⦄ (arr : Addressable S) (k : ℕ) (las : LogicalAddressSpace S)
    (o : ℕ) (size : ObjectSize) (q p : ℕ) (place : Place) (userdata : List ℕ) where
  abbrev pub own_slice : LogicalSlice
  own_slice = new_slice o (total size + object_header_size)

  abbrev pub own_bytes : List ℕ
  own_bytes = header_bytes (new_header size (indirect q) p) ++ userdata

  -- A copy in memory: its bytes, the pointer to it, and its version slot.
  pub record Placed : Type 0 where
    pub base : ℕ
    pub allocator : SourceAllocator S
    pub region : Region arr las own_slice k base allocator
    pub held : Holds arr las own_slice k base own_bytes
    pub pointed : PlaceHolds arr k las place (o + object_header_size)
    pub slot : Word arr k las q 0
    -- the slot stands apart from the pointer and the copy
    pub pointer_apart : Off arr k (Disjoint (new_slice q 8)) place
    pub slot_apart : Disjoint (new_slice q 8) own_slice

  abbrev pub own_copy : Copy
  own_copy = record {
    number = 0;
    found = record { userdata = userdata; place = place; header = o };
  }

  -- The fields of a header fit their widths, and the object has a user's part.
  abbrev pub Fits : Type 0
  Fits =
      (o + object_header_size < address_space)
      × (size.pointers < 2 ^ 32)
      × (size.user_data < 2 ^ 32)
      × (q < address_space)
      × (p < word)
      × (0 < total size)

  module _ (x : Placed) (fits : Fits) where
    header_lem : header_from_slice own_bytes ≡ new_header size (indirect q) p
    unfolding new_header
    header_lem =
        header_from_slice-header_bytes (new_header size (indirect q) p) userdata fits.1 fits.2
          (omega (arith, fits)) (omega arith) (fits.4)

    other_bytes :
        slice (arr.content (x.allocator.source)) (o + other_offset - x.base) 8
        ≡ take 8 (drop other_offset own_bytes)
    other_bytes =
        let above = x.region.whole.placed.above in
        let content = arr.content (x.allocator.source) in
        same_slice content (o + other_offset - x.base) (o - x.base + other_offset) 8 8
          (omega (arith, above)) refl
        ∙ sym (
            take-slice content (o - x.base + other_offset) 8
              (total size + object_header_size - other_offset) (omega arith))
        ∙ ap (take 8) (
            sym (
              drop-slice content (o - x.base) other_offset (total size + object_header_size)
                (omega arith)))
        ∙ ap (λ (bs : List ℕ). take 8 (drop other_offset bs))
            (Holds-Region arr las own_slice k x.base x.allocator own_bytes x.region x.held)

    other_there : Word arr k las (o + other_offset) p
    unfolding header_from_slice new_header
    other_there = record {
      base = x.base;
      bytes = slice (arr.content (x.allocator.source)) (o + other_offset - x.base) 8;
      there =
          Region-Holds arr las own_slice k x.base x.allocator x.region
            (new_slice (o + other_offset) 8) (omega arith, omega (arith, fits), omega arith);
      value = ap le_value other_bytes ∙ ap (λ (h : ObjectHeader). h.other) header_lem;
    }

    number_there :
        (V : ℕ → Type 0)
        → V q
        → (num : Numbered arr k las (header_from_slice own_bytes).version 0) × SlotIs arr k q num
          × OnSlot arr k V num
    unfolding new_header
    number_there V own_slot =
        subst
          (λ (v : Version).
            (num : Numbered arr k las v 0) × SlotIs arr k q num × OnSlot arr k V num)
          (ap (λ (t : ObjectHeader). t.version) (sym header_lem))
          (in_slot q 0 (fits.3) (omega arith) x.slot, refl, own_slot)

    -- The copies with this one in front, and what holds along them.
    module _ (P : LogicalSlice → Type 0) (V : ℕ → Type 0) where
      pub Placed-Along :
          (copies : List Copy)
          → Tracked arr k P V las size (local p) copies
          → Off arr k P place
          → P own_slice
          → P (new_slice (o + other_offset) 8)
          → V q
          → (chain : Chain arr k las size place (own_copy ∷ moved (cell (o + other_offset)) copies))
            × HeadIs arr k q chain
            × Along arr k P V chain
      unfolding is_some
      Placed-Along copies older off own_off far own_slot =
          let start : wrapping_add o other_offset ≡ o + other_offset = omega (arith, fits) in
          let rest : Tracked arr k P V las size (cell (wrapping_add o other_offset))
              (moved (cell (o + other_offset)) copies) =
            subst
              (λ (b : ℕ).
                Tracked arr k P V las size (cell b) (moved (cell (o + other_offset)) copies))
              (sym start)
              (Tracked-moved arr k P V las size p (cell (o + other_offset)) copies other_there far
                older) in
          let (num, own, on) = number_there V own_slot in
          subst
            (λ (u : List ℕ).
              (chain : Chain arr k las size place (
                record { number = 0; found = record { userdata = u; place = place; header = o } }
                ∷ moved (cell (o + other_offset)) copies))
              × HeadIs arr k q chain
              × Along arr k P V chain)
            (drop-header_bytes (new_header size (indirect q) p) userdata)
            (
              link (o + object_header_size) own_slice x.base own_bytes 0 x.pointed
                  (ground (arith, fits, address_lem (o + object_header_size)))
                  (object_slice_lem o size fits.0) x.held
                  (ground (
                    arith,
                    length-append (header_bytes (new_header size (indirect q) p)) userdata,
                    length-header_bytes (new_header size (indirect q) p),
                  ))
                  num rest.0,
              own,
              (off, own_off, on, rest.1),
            )

    pub Placed-Chain :
        (copies : List Copy)
        → Beset arr k q las size (local p) copies
        → (chain : Chain arr k las size place (own_copy ∷ moved (cell (o + other_offset)) copies))
          × HeadIs arr k q chain
          × AllBeside arr k q chain
    Placed-Chain copies older =
        Placed-Along (Disjoint (new_slice q 8)) (Near arr k q) copies older x.pointer_apart
          x.slot_apart
          (elim x.slot_apart [
            | inl h ↦ inl (omega (arith, h))
            | inr h ↦ inr (omega (arith, h, fits))
          ])
          (inl refl)
