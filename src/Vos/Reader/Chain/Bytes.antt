-- ===== src/Vos/Reader/Chain/Bytes.antt =====
-- The bytes of a copy: its slice by a pointer to it, and the user's part behind the header.
use librarius.Prelude.{
  ℕ, ◌+◌, ◌-◌, ◌<◌, ◌≡◌, refl, sym, ap, ◌∙◌, arith, true, false, Bool, List, ◌∷◌, ◌++◌, length,
  drop, length-slice, length-drop, le_bytes,
}
use librarius.Usize.{wrapping_add, wrapping_sub}
use librarius.Source.{Source}
use librarius.Source.Contract.{Addressable}
use librarius.Las.Slice.{LogicalSlice, StoredLogicalSlice, new_slice, byte, raw, new_stored}
use librarius.Las.Space.{LogicalAddressSpace}
use librarius.Vos.Pointer.{UntypedPointer, address, is_byte_addressable, into_stored_slice_offset}
use librarius.Vos.Pointer.Words.{address_space, address_lem, is_byte_addressable_lem}
use librarius.Vos.Place.{Place}
use librarius.Vos.Object.{ObjectSize, ObjectHeader, total, object_header_size, header_bytes}
use librarius.Vos.Reader.History.{Copy}
use librarius.Vos.Reader.Chain.{Chain, link}

raw-new_stored : (s : LogicalSlice) (b : Bool) → raw (new_stored s b) ≡ s
unfolding raw new_stored
raw-new_stored s true = refl
raw-new_stored s false = refl

into_len :
    (u : UntypedPointer) (size : ObjectSize) (s : LogicalSlice)
    → into_stored_slice_offset u (total size) object_header_size ≡ byte s
    → s.len ≡ wrapping_add (total size) object_header_size
unfolding into_stored_slice_offset raw
into_len u size s kind =
    let stored =
      new_slice (wrapping_sub (address u) object_header_size)
        (wrapping_add (total size) object_header_size) in
    ap (λ (x : StoredLogicalSlice). (raw x).len) (sym kind)
    ∙ ap (λ (x : LogicalSlice). x.len) (raw-new_stored stored (is_byte_addressable u))

-- The slice of an object by a pointer to its user's part.
pub object_slice_lem :
    (o : ℕ) (size : ObjectSize)
    → o + object_header_size < address_space
    → into_stored_slice_offset (o + object_header_size) (total size) object_header_size
      ≡ byte (new_slice o (total size + object_header_size))
unfolding into_stored_slice_offset new_stored total
object_slice_lem o size h =
    ground (
      arith,
      address_lem (o + object_header_size),
      is_byte_addressable_lem (o + object_header_size),
    )

module _ {S : Type 0} ⦃src : Source S⦄ (arr : Addressable S) (k : ℕ) where
  pub Chain-length :
      (las : LogicalAddressSpace S) (size : ObjectSize) (place : Place) (c : Copy)
      (older : List Copy)
      → Chain arr k las size place (c ∷ older)
      → (length (c.found.userdata) ≡ total size) × (c.found.place ≡ place)
  unfolding total
  Chain-length las size place c older (link u s base bytes number w there kind held long num rest) =
      let wide : s.len ≡ wrapping_add (total size) object_header_size = into_len u size s kind in
      (
        omega (
          arith,
          wide,
          length-drop object_header_size bytes,
          ap length held.bytes_there,
          length-slice (arr.content held.allocator.source) (s.offset - base) s.len,
        ),
        refl,
      )

pub drop-header_bytes :
    (h : ObjectHeader) (rest : List ℕ) → drop object_header_size (header_bytes h ++ rest) ≡ rest
unfolding header_bytes le_bytes
drop-header_bytes h rest = refl
