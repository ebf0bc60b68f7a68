-- ===== src/Vos/Version/Slot.antt =====
-- An indirect version and the slot in the address space that it stands for.
use librarius.Prelude.{ℕ, ◌+◌, ◌^◌, ◌<◌, ◌≡◌, sym, ap, ◌∙◌, suc, arith}
use librarius.Bits.{bit_or_none}
use librarius.Error.{ok}
use librarius.Source.{Source}
use librarius.Source.Contract.{Addressable}
use librarius.Las.Slice.{new_slice, byte, raw, unwrap_byte}
use librarius.Las.Space.{LogicalAddressSpace}
use librarius.Las.Space.Memory.{read-Holds}
use librarius.Vos.Pointer.{into_stored_slice, new_from_stored}
use librarius.Vos.Pointer.Words.{address_space, into_stored_slice-new_from_stored, new_byte_lem}
use librarius.Vos.Place.{cell, local, load}
use librarius.Vos.Place.Words.{Word, Stored, load_lem, store_word_lem}
use librarius.Vos.Version.{Version, version_size, data_bytes, read_number, commit}
use librarius.Vos.Version.Words.{direct_space, direct_lem, indirect_lem}

-- The version that stands for the slot at `p`.
abbrev pub indirect : ℕ → Version
indirect p = p + 2 ^ 63

slot_slice : (p : ℕ) → p < address_space → into_stored_slice p version_size ≡ byte (new_slice p 8)
unfolding new_from_stored raw
slot_slice p h =
    ap (λ (t : ℕ). into_stored_slice t 8) (sym (new_byte_lem p))
    ∙ into_stored_slice-new_from_stored (byte (new_slice p 8)) h

indirect_slice :
    (p : ℕ)
    → p < address_space
    → into_stored_slice (data_bytes (indirect p)) version_size ≡ byte (new_slice p 8)
indirect_slice p h =
    ap (λ (t : ℕ). into_stored_slice t version_size) (indirect_lem p (omega (arith, h))).1
    ∙ slot_slice p h

module _ {S : Type 0} ⦃src : Source S⦄ (arr : Addressable S) (k : ℕ) where
  pub read_number-direct :
      (las : LogicalAddressSpace S) (fuel v : ℕ)
      → v < direct_space
      → read_number (suc fuel) v las ≡ (ok v, las)
  unfolding read_number
  read_number-direct las fuel v h = ground (arith, direct_lem v h)

  -- An indirect version made of an address below 2^54 reads as the number below 2^63 that its slot
  -- holds, and the read changes nothing.
  pub read_number-indirect :
      {las : LogicalAddressSpace S} (p n : ℕ)
      → p < address_space
      → n < direct_space
      → Word arr k las p n
      → read_number 2 (indirect p) las ≡ (ok n, las)
  unfolding read_number unwrap_byte
  read_number-indirect {las} p n hp hn w = ground (
    arith,
    indirect_lem p (omega (arith, hp)),
    indirect_slice p hp,
    load_lem arr k p n w,
    direct_lem n hn,
  )

  -- The commit of an indirect version whose slot holds a number stores the new number in the slot
  -- and keeps every word and slice apart from the slot, for an address below 2^54 and numbers
  -- below 2^63.
  pub commit-indirect :
      {las : LogicalAddressSpace S} (p n m : ℕ)
      → p < address_space
      → n < direct_space
      → m < direct_space
      → Word arr k las p n
      → (las' : LogicalAddressSpace S) × (commit 2 (local (indirect p)) m las ≡ (ok (cell p), las'))
        × Stored arr k las las' p m
  unfolding commit unwrap_byte load
  commit-indirect {las} p n m hp hn hm w =
      let (las', run, stored) = store_word_lem arr k p n m (omega (arith, hm)) w in
      (
        las',
        ground (
          arith,
          indirect_lem p (omega (arith, hp)),
          indirect_slice p hp,
          load_lem arr k p n w,
          read-Holds arr las (new_slice p 8) k w.base w.bytes w.there,
          w.value,
          direct_lem n hn,
          bit_or_none m,
          run,
        ),
        stored,
      )
