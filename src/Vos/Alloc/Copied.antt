-- ===== src/Vos/Alloc/Copied.antt =====
-- `TransactionalObjectAllocator::alloc` out of a page that has room, and the object in memory after
-- its user's part is filled.
use librarius.Prelude.{
  ℕ, ◌+◌, ◌-◌, ◌^◌, ◌≤◌, ◌<◌, ◌≡◌, refl, ap₂, ◌∙◌, arith, some, List, ◌++◌, length, slice, store,
  slice-append, slice-store_self, slice-store_disjoint, Bytes, le_bytes, inl, inr,
}
use librarius.Usize.{wrapping_add, wrapping_sub}
use librarius.Error.{ok}
use librarius.Source.{Source}
use librarius.Source.Contract.{Addressable}
use librarius.Source.Allocator.{SourceAllocator}
use librarius.Las.Slice.{LogicalSlice, new_slice, split_at}
use librarius.Las.MutRef.{LogicalMutRef, try_consume_bytes}
use librarius.Las.MutRef.Pieces.{IsTight}
use librarius.Las.Space.{LogicalAddressSpace, write_through}
use librarius.Las.Space.Memory.{Disjoint, Holds}
use librarius.Las.Space.Region.{Region}
use librarius.Las.Space.Stock.{KeepsStock}
use librarius.Las.Space.WroteIn.{write_through-WroteIn}
use librarius.Vos.Pointer.{UntypedPointer}
use librarius.Vos.Pointer.Words.{new_byte_lem}
use librarius.Vos.Version.{Version}
use librarius.Vos.Object.{
  ObjectSize, ObjectHeader, total, object_header_size, header_bytes, new_header,
}
use librarius.Vos.Alloc.{Allocating, alloc_loop, generic_alloc, init_object, alloc_object}

-- What is left of a page behind a piece.
abbrev pub rest_of : LogicalMutRef → ℕ → LogicalMutRef
rest_of m size = record {
  region = new_slice (m.slice.offset + size) (m.slice.len - size);
  slice = new_slice (m.slice.offset + size) (m.slice.len - size);
}

module _ {S : Type 0} ⦃src : Source S⦄ where
  -- With room in the active page, an allocation is the next piece of it.
  pub generic_alloc-rest_of :
      (s : Allocating S) (m : LogicalMutRef) (size : ℕ)
      → s.active ≡ some m
      → IsTight m
      → size ≤ m.slice.len
      → generic_alloc size s ≡ (
        ok (new_slice m.slice.offset size, new_slice m.slice.offset size),
        record s { active = some (rest_of m size) },
      )
  unfolding generic_alloc alloc_loop try_consume_bytes split_at
  generic_alloc-rest_of s m size active t fits =
      ground (arith, active, t.same_offset, t.same_len, t.addressed)

total_small : (size : ObjectSize) → total size < 2 ^ 32
unfolding total
total_small size = omega arith

pub length-header_bytes : (h : ObjectHeader) → length (header_bytes h) ≡ 32
unfolding header_bytes le_bytes
length-header_bytes h = refl

-- A buffer behind another one, both stored.
stored_together :
    (m : Bytes) (o : ℕ) (xs ys : List ℕ)
    → slice (store (store m o xs) (o + length xs) ys) o (length xs + length ys) ≡ xs ++ ys
stored_together m o xs ys =
    let m' = store m o xs in
    slice-append (store m' (o + length xs) ys) o (length xs) (length ys)
    ∙ ap₂ (λ (a b : List ℕ). a ++ b)
        (slice-store_disjoint m' (o + length xs) ys o (length xs) (inl (omega arith))
          ∙ slice-store_self m o xs)
        (slice-store_self m' (o + length xs) ys)

module _ {S : Type 0} ⦃src : Source S⦄ (arr : Addressable S) (k base : ℕ) (a : SourceAllocator S)
    (s : Allocating S) (m : LogicalMutRef) (size : ObjectSize) (version : Version)
    (other : UntypedPointer) (userdata : List ℕ) where
  abbrev pub object_slice : LogicalSlice
  object_slice = new_slice m.slice.offset (total size + object_header_size)

  abbrev pub user_slice : LogicalSlice
  user_slice = new_slice (m.slice.offset + object_header_size) (total size)

  abbrev pub object_bytes : List ℕ
  object_bytes = header_bytes (new_header size version other) ++ userdata

  -- An object has been allocated, and its user's part filled.
  pub record Copied : Type 0 where
    pub las_between : LogicalAddressSpace S
    pub las_after : LogicalAddressSpace S
    pub allocator_after : SourceAllocator S
    pub allocated : alloc_object size version other s ≡ (
      ok (m.slice.offset + object_header_size, user_slice),
      record { las = las_between; active = some (rest_of m (total size + object_header_size)) },
    )
    pub filled : write_through user_slice userdata las_between ≡ (ok tt, las_after)
    pub region : Region arr las_after object_slice k base allocator_after
    pub bytes_there :
        slice
          (arr.content allocator_after.source)
          (m.slice.offset - base)
          (total size + object_header_size)
        ≡ object_bytes
    pub frame :
        (u : LogicalSlice) (base' : ℕ) (bytes : List ℕ)
        → Disjoint object_slice u
        → Holds arr s.las u k base' bytes
        → Holds arr las_after u k base' bytes
    pub stocks : KeepsStock arr k s.las las_after

  module _ (active : s.active ≡ some m) (tight : IsTight m)
      (fits : total size + object_header_size ≤ m.slice.len)
      (region : Region arr s.las object_slice k base a) (positive : 0 < total size)
      (same_length : length userdata ≡ total size) where
    allocated_lem :
        (las' : LogicalAddressSpace S)
        → write_through
            (new_slice m.slice.offset object_header_size)
            (header_bytes (new_header size version other))
            s.las
          ≡ (ok tt, las')
        → alloc_object size version other s ≡ (
          ok (m.slice.offset + object_header_size, user_slice),
          record { las = las'; active = some (rest_of m (total size + object_header_size)) },
        )
    unfolding alloc_object init_object split_at
    allocated_lem las' run =
        let small = total_small size in
        let sum : wrapping_add (total size) object_header_size ≡ total size + object_header_size =
          omega (arith, small) in
        let start : wrapping_add m.slice.offset object_header_size
            ≡ m.slice.offset + object_header_size =
          omega (arith, tight.addressed, fits) in
        let width : wrapping_sub (total size + object_header_size) object_header_size ≡ total size =
          omega (arith, small) in
        ground (
          arith,
          sum,
          start,
          width,
          run,
          new_byte_lem (m.slice.offset + object_header_size),
          generic_alloc-rest_of s m (total size + object_header_size) active tight fits,
        )

    header_apart :
        (u : LogicalSlice)
        → Disjoint object_slice u
        → Disjoint (new_slice m.slice.offset object_header_size) u
    header_apart u (inl h) = inl (omega (arith, h))
    header_apart u (inr h) = inr h

    part_apart : (u : LogicalSlice) → Disjoint object_slice u → Disjoint user_slice u
    part_apart u (inl h) = inl (omega (arith, h))
    part_apart u (inr h) = inr (omega (arith, h))

    copied_bytes :
        (c0 c1 c2 : Bytes)
        → c1 ≡ store c0 (m.slice.offset - base) (header_bytes (new_header size version other))
        → c2 ≡ store c1 (m.slice.offset + object_header_size - base) userdata
        → base ≤ m.slice.offset
        → slice c2 (m.slice.offset - base) (total size + object_header_size) ≡ object_bytes
    copied_bytes c0 c1 c2 e1 e2 above =
        let hdr = header_bytes (new_header size version other) in
        let n = length-header_bytes (new_header size version other) in
        let o = m.slice.offset - base in
        let start : m.slice.offset + object_header_size - base ≡ o + length hdr =
          omega (arith, n) in
        let width : total size + object_header_size ≡ length hdr + length userdata =
          omega (arith, n, same_length) in
        let content : c2 ≡ store (store c0 o hdr) (o + length hdr) userdata =
          e2 ∙ ap₂ (λ (c : Bytes) (t : ℕ). store c t userdata) e1 start in
        ap₂ (λ (c : Bytes) (t : ℕ). slice c o t) content width ∙ stored_together c0 o hdr userdata

    pub alloc_object-Copied : Copied
    alloc_object-Copied =
        let above = region.whole.placed.above in
        let hdr = header_bytes (new_header size version other) in
        let w1 =
          write_through-WroteIn arr s.las object_slice k base a region
            (new_slice m.slice.offset object_header_size) hdr
            (omega arith, omega arith, omega arith)
            (length-header_bytes (new_header size version other)) in
        let w2 =
          write_through-WroteIn arr w1.las_after object_slice k base w1.allocator_after w1.region
            user_slice userdata (omega arith, omega arith, positive) same_length in
        record {
          las_between = w1.las_after;
          las_after = w2.las_after;
          allocator_after = w2.allocator_after;
          allocated = allocated_lem w1.las_after w1.run;
          filled = w2.run;
          region = w2.region;
          bytes_there =
              copied_bytes (arr.content a.source) (arr.content (w1.allocator_after.source))
                (arr.content (w2.allocator_after.source)) w1.content w2.content above;
          frame = λ u base' bytes apart held.
              w2.frame u base' bytes (part_apart u apart)
                (w1.frame u base' bytes (header_apart u apart) held);
          stocks = λ start pages x. w2.stocks start pages (w1.stocks start pages x);
        }
