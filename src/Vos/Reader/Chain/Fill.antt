-- ===== src/Vos/Reader/Chain/Fill.antt =====
-- The memory of a new copy filled by its owner.
use librarius.Prelude.{
  ℕ, ◌+◌, ◌-◌, ◌<◌, ◌≡◌, refl, sym, ap, ap₂, ◌∙◌, arith, List, ◌++◌, length, take, slice, store,
  slice-append, slice-store_self, slice-store_disjoint, take-slice, Bytes, le_bytes, inl, inr,
}
use librarius.Error.{ok}
use librarius.Source.{Source}
use librarius.Source.Contract.{Addressable}
use librarius.Las.Slice.{LogicalSlice, new_slice}
use librarius.Las.Space.{LogicalAddressSpace, write_through}
use librarius.Las.Space.Memory.{Disjoint}
use librarius.Las.Space.Region.{Holds-Region}
use librarius.Las.Space.Stock.{KeepsStock}
use librarius.Las.Space.WroteIn.{write_through-WroteIn}
use librarius.Vos.Place.{Place}
use librarius.Vos.Object.{
  ObjectSize, ObjectHeader, total, object_header_size, header_bytes, new_header,
}
use librarius.Vos.Version.Slot.{indirect}
use librarius.Vos.Reader.Chain.Along.{Off}
use librarius.Vos.Reader.Chain.Frame.{Frame, Frame-Word, Frame-PlaceHolds}
use librarius.Vos.Reader.Chain.Prepend.{Placed, own_slice}

take-header_bytes :
    (h : ObjectHeader) (rest : List ℕ)
    → take object_header_size (header_bytes h ++ rest) ≡ header_bytes h
unfolding header_bytes le_bytes
take-header_bytes h rest = refl

refilled :
    (m : Bytes) (o n : ℕ) (h : ObjectHeader) (old content : List ℕ)
    → slice m o (n + object_header_size) ≡ header_bytes h ++ old
    → length content ≡ n
    → slice (store m (o + object_header_size) content) o (n + object_header_size)
      ≡ header_bytes h ++ content
refilled m o n h old content before same_length =
    let m' = store m (o + object_header_size) content in
    let width : n + object_header_size ≡ object_header_size + length content =
      omega (arith, same_length) in
    ap (slice m' o) width
    ∙ slice-append m' o object_header_size (length content)
    ∙ ap₂ (λ (x y : List ℕ). x ++ y)
        (slice-store_disjoint m (o + object_header_size) content o object_header_size
            (inl (omega arith))
          ∙ sym (take-slice m o object_header_size (n + object_header_size) (omega arith))
          ∙ ap (take object_header_size) before
          ∙ take-header_bytes h old)
        (slice-store_self m (o + object_header_size) content)

module _ {S : Type 0} ⦃src : Source S⦄ (arr : Addressable S) (k : ℕ) (las : LogicalAddressSpace S)
    (o : ℕ) (size : ObjectSize) (q p : ℕ) (place : Place) (userdata content : List ℕ) where
  abbrev pub user_part : LogicalSlice
  user_part = new_slice (o + object_header_size) (total size)

  -- The space after new bytes have been written to the user's part.
  pub record Filled : Type 0 where
    pub las_after : LogicalAddressSpace S
    pub run : write_through user_part content las ≡ (ok tt, las_after)
    pub placed : Placed arr k las_after o size q p place content
    pub frame : Frame arr k (Disjoint (own_slice arr k las o size q p place content)) las las_after
    pub stocks : KeepsStock arr k las las_after

  pub Placed-Filled :
      Placed arr k las o size q p place userdata
      → 0 < total size
      → length content ≡ total size
      → Off arr k (Disjoint (own_slice arr k las o size q p place content)) place
      → Filled
  Placed-Filled x positive same_length off =
      let own = own_slice arr k las o size q p place content in
      let hdr = new_header size (indirect q) p in
      let above = x.region.whole.placed.above in
      let w =
        write_through-WroteIn arr las own k x.base x.allocator x.region user_part content
          (omega arith, omega arith, positive) same_length in
      let start : o + object_header_size - x.base ≡ o - x.base + object_header_size =
        omega (arith, above) in
      let part : (u : LogicalSlice) → Disjoint own u → Disjoint user_part u =
        λ u apart. elim apart [ inl h ↦ inl (omega (arith, h)) | inr h ↦ inr (omega (arith, h)) ] in
      let frame : Frame arr k (Disjoint own) las w.las_after =
        λ u b bytes apart held. w.frame u b bytes (part u apart) held in
      let away : Disjoint own (new_slice q 8) = elim x.slot_apart [
        | inl h ↦ inr h
        | inr h ↦ inl h
      ] in
      record {
        las_after = w.las_after;
        run = w.run;
        placed = record {
          base = x.base;
          allocator = w.allocator_after;
          region = w.region;
          held = record {
            allocator = w.allocator_after;
            resolves = w.region.whole;
            bytes_there =
                ap (λ m. slice m (o - x.base) (total size + object_header_size))
                  (w.content ∙ ap (λ s. store (arr.content (x.allocator.source)) s content) start)
                ∙ refilled (arr.content (x.allocator.source)) (o - x.base) (total size) hdr userdata
                    content (Holds-Region arr las own k x.base x.allocator _ x.region x.held)
                    same_length;
          };
          pointed =
              Frame-PlaceHolds arr k (Disjoint own) las w.las_after place _ frame off x.pointed;
          slot = Frame-Word arr k (Disjoint own) las w.las_after q 0 frame away x.slot;
          pointer_apart = x.pointer_apart;
          slot_apart = x.slot_apart;
        };
        frame = frame;
        stocks = w.stocks;
      }
