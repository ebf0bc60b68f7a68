-- ===== src/Vos/Reader.antt =====
-- src/vos.rs: `VersionedReader`, which reads an object as of a version, along the chain of its
-- copies from new to old.
pub mod History
pub mod Chain
use librarius.Prelude.{
  ℕ, zero, suc, ◌/◌, ◌&&◌, ◌||◌, Bool, List, drop, length, leb, ltb, ◌==◌, if◌then◌else◌,
}
use librarius.Usize.{wrapping_add}
use librarius.Utils.{get_or_insert_with_result}
use librarius.Error.{
  invalid_logical_address, tx_aborted, ok, err, out_of_fuel, Action, pure, lift, assert, ◌>>=◌,
  ◌>>◌,
}
use librarius.Source.{Source}
use librarius.Las.Slice.{LogicalAddress, LogicalSlice, block, byte, unwrap_byte}
use librarius.Las.Space.{LogicalAddressSpace, unwrap}
use librarius.Las.Space
use librarius.Vos.Pointer.{
  pointer_size, is_some, is_byte_addressable, into_stored_slice, into_stored_slice_offset, new_byte,
  new_from_stored,
}
use librarius.Vos.Place.{Place, cell, load, compare_and_swap}
use librarius.Vos.Version.{read_number}
use librarius.Vos.Object.{
  ObjectSize, total, object_header_size, version_offset, other_offset, header_from_slice,
}

-- What a read returns: the user's bytes, where the object's header stands, and the pointer by
-- which the read came to it, as it then is.
pub record Found : Type 0 where
  pub userdata : List ℕ
  pub place : Place
  pub header : LogicalAddress

-- The recursion of `Version::read` goes through one slot.
abbrev pub version_fuel : ℕ
version_fuel = 2

module _ {S : Type 0} ⦃src : Source S⦄ where
  -- `read_version`: where the object's version stands. A block pointer is a `todo!`.
  unfoldable pub read_version : Place → Action (LogicalAddressSpace S) LogicalAddress
  read_version place = do
    p ← load place
    s ← lift (unwrap_byte (into_stored_slice_offset p 0 object_header_size))
    _ ← Space.read s
    pure (wrapping_add s.offset version_offset)

  -- The copy at a byte-addressable slice, if it is visible; else the copy before it.
  unfoldable pub visit :
      ℕ
      → (Place → Action (LogicalAddressSpace S) Found)
      → Bool
      → Place
      → LogicalSlice
      → Action (LogicalAddressSpace S) Found
  visit snapshot older abort_on_conflict place s = do
    bytes ← Space.read s
    assert (leb object_header_size (length bytes))
    version ← read_number version_fuel (header_from_slice bytes).version
    if (version == 0) || ltb snapshot version
        then (if abort_on_conflict
            then lift (err tx_aborted)
            else older (cell (wrapping_add s.offset other_offset)))
        else pure
            (record { userdata = drop object_header_size bytes; place = place; header = s.offset })

  -- `VersionedReader::read`, on fuel for the copies and the fetches on the way.
  unfoldable pub read_object :
      ℕ → ℕ → Place → ObjectSize → Bool → Action (LogicalAddressSpace S) Found
  unfolding visit
  read_object zero snapshot place size abort_on_conflict las = (out_of_fuel, las)
  read_object (suc fuel) snapshot place size abort_on_conflict las =
      let again : Place → Action (LogicalAddressSpace S) Found =
        λ p. read_object fuel snapshot p size abort_on_conflict in
      (do
        oldptr ← load place
        lift (if is_some oldptr then ok tt else err invalid_logical_address)
        (λ l. elim (into_stored_slice_offset oldptr (total size) object_header_size) [
          | byte s ↦ visit snapshot again abort_on_conflict place s l
          | block _ ↦
              (do
                bytes ← Space.fetch (into_stored_slice oldptr (total size))
                (_, place') ← compare_and_swap place oldptr (new_byte bytes.offset)
                again place')
                l
        ]))
        las

  -- A pointer of the flushed object: what it points to gets a backing, and it points there.
  unfoldable pub swizzle : ℕ → Place → Action (LogicalAddressSpace S) (Unit {0})
  swizzle fuel place = do
    oldptr ← load place
    if is_some oldptr && is_byte_addressable oldptr
        then (do
          s ← lift (unwrap_byte (into_stored_slice oldptr 1))
          found ← Space.get_backing s
          backing ←
              get_or_insert_with_result found
                (do _ ← Space.flush fuel s; b ← Space.get_backing s; lift (unwrap b))
          _ ← compare_and_swap place oldptr (new_from_stored backing)
          pure tt)
        else pure tt

  -- `for p in pointers`, with the pointers that are left
  unfoldable pub swizzle_all : ℕ → ℕ → LogicalAddress → Action (LogicalAddressSpace S) (Unit {0})
  swizzle_all fuel zero a = pure tt
  swizzle_all fuel (suc left) a = do
    swizzle fuel (cell a)
    swizzle_all fuel left (wrapping_add a pointer_size)

  -- `VersionedReader::flush`
  unfoldable pub flush_object : ℕ → Place → Action (LogicalAddressSpace S) (Unit {0})
  unfolding swizzle_all
  flush_object fuel place = do
    p ← load place
    (λ las. elim (into_stored_slice_offset p 0 object_header_size) [
      | block _ ↦ (ok tt, las)
      | byte hdr ↦
          (do
            bytes ← Space.read hdr
            let pointers = (header_from_slice bytes).size.pointers
            s ← lift (unwrap_byte (into_stored_slice p pointers))
            _ ← Space.read s
            swizzle_all fuel (pointers / pointer_size) s.offset
            _ ← Space.flush fuel s
            pure tt)
            las
    ])
