-- ===== src/Tests/Transactions.antt =====
-- The theorems on transactions at transactions over the small address space.
use librarius.Prelude.{
  ℕ, ◌+◌, ◌^◌, ◌≡◌, refl, none, some, List, [], ◌∷◌, arith, slice, le_value, if◌then◌else◌,
}
use librarius.Error.{ok, err, tx_aborted}
use librarius.Source.Memory.{MemorySource, memory_source}
use librarius.Source.Memory.Array.{memory_array}
use librarius.Las.Slice.{new_slice, new_stored, byte, unwrap_byte}
use librarius.Las.Space
use librarius.Usize.{wrapping_add}
use librarius.Las.Space.{LogicalAddressSpace}
use librarius.Vos.Pointer.{address, is_byte_addressable, into_stored_slice_offset}
use librarius.Vos.Place.{cell, load}
use librarius.Vos.Place.Words.{Word, Stored}
use librarius.Vos.Version.{read_number}
use librarius.Vos.Version.Slot.{indirect, read_number-direct, read_number-indirect}
use librarius.Vos.Reader.{read_version}
use librarius.Vos.Store.{Versioned}
use librarius.Tx.{Transaction, TransactionWrite, validate, rollback_all, commit}
use librarius.Tx.Validate.{Versions, done, also, any_above, validate_lem}
use librarius.Tx.Writes.{AllPerformed, Restored, rollback_all_lem}
use librarius.Tx.Commit.{over, commit-conflict, commit-publishes}
use librarius.Tests.World.{filled, space, word_at, loaded, stored}

pub slot : Word memory_array 7 space 4232 0
unfolding filled le_value slice
slot = word_at 4232 0 (omega arith) (omega arith) (omega arith) refl

version_of :
    (c p a : ℕ) (bytes : List ℕ)
    → load (cell c) space ≡ (ok p, space)
    → into_stored_slice_offset p 0 32 ≡ byte (new_slice a 32)
    → Space.read (new_slice a 32) space ≡ (ok bytes, space)
    → read_version (cell c) space ≡ (ok (wrapping_add a 8), space)
unfolding read_version unwrap_byte
version_of c p a bytes l s r = ground (arith, l, s, r)

-- The copy of version 9, and the copy that is not committed yet.
committed : Versions space (cell 4224 ∷ []) (9 ∷ [])
unfolding filled slice le_value into_stored_slice_offset new_stored is_byte_addressable address
committed =
    also 4360 9 9
      (version_of 4224 4384 4352 _ (loaded 4224 4384 (omega arith) (omega arith) (omega arith) refl)
        refl (stored 4352 32 (omega arith) (omega arith) (omega arith) (omega arith)))
      (loaded 4360 9 (omega arith) (omega arith) (omega arith) refl)
      (read_number-direct memory_array 7 space 1 9 (omega arith)) done

pub uncommitted : Versions space (cell 4240 ∷ []) (0 ∷ [])
unfolding filled slice le_value into_stored_slice_offset new_stored is_byte_addressable address
uncommitted =
    also 4616 (4232 + 2 ^ 63) 0
      (version_of 4240 4640 4608 _ (loaded 4240 4640 (omega arith) (omega arith) (omega arith) refl)
        refl (stored 4608 32 (omega arith) (omega arith) (omega arith) (omega arith)))
      (loaded 4616 (4232 + 2 ^ 63) (omega arith) (omega arith) (omega arith) refl)
      (read_number-indirect memory_array 7 4232 0 (omega arith) (omega arith) slot) done

abbrev write_set : List TransactionWrite
write_set = record { dst = cell 4224; current = 4512; new = 4384 } ∷ []

performed : AllPerformed memory_array 7 space write_set
unfolding filled slice le_value
performed = (
  record {
    at_cell = refl;
    fits = omega arith;
    holds = word_at 4224 4384 (omega arith) (omega arith) (omega arith) refl;
  },
  tt,
  tt,
)

abbrev store : Versioned MemorySource
store = record { las = space; version = 9 }

abbrev pub reading : ℕ → Transaction MemorySource
reading c = record {
  vos = store;
  root = cell 4224;
  object_active = none;
  log_active = none;
  snapshot = 9;
  version = some (indirect 4232);
  writeset = write_set;
  readset = cell c ∷ [];
}

validate_lem_example :
    validate (indirect 4232) (cell 4224 ∷ []) space
    ≡ (if any_above 0 (9 ∷ []) then err tx_aborted else ok tt, space)
validate_lem_example =
    validate_lem space (indirect 4232) 0 (cell 4224 ∷ []) (9 ∷ [])
      (read_number-indirect memory_array 7 4232 0 (omega arith) (omega arith) slot) committed

rollback_all_lem_example :
    (las' : LogicalAddressSpace MemorySource) × (rollback_all write_set space ≡ (ok tt, las'))
    × Restored memory_array 7 space las' write_set
rollback_all_lem_example = rollback_all_lem memory_array 7 write_set space performed

commit-conflict_example :
    (las' : LogicalAddressSpace MemorySource) × (commit (reading 4224)
      ≡ (err tx_aborted, over memory_array 7 (reading 4224) las' 10))
    × Restored memory_array 7 space las' write_set
commit-conflict_example =
    commit-conflict memory_array 7 (reading 4224) 4232 (9 ∷ []) refl (omega arith) (omega arith)
      slot committed refl performed

commit-publishes_example :
    (las' : LogicalAddressSpace MemorySource) × (commit (reading 4240)
      ≡ (ok tt, over memory_array 7 (reading 4240) las' 10))
    × (read_number 2 (indirect 4232) las' ≡ (ok 10, las'))
    × Stored memory_array 7 space las' 4232 10
commit-publishes_example =
    commit-publishes memory_array 7 (reading 4240) 4232 (0 ∷ []) refl (omega arith) (omega arith)
      slot uncommitted refl
