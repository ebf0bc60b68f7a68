-- ===== src/Tests/Words.antt =====
-- The theorems on slices and words of the address space at concrete slices.
use librarius.Prelude.{
  ℕ, ◌+◌, ◌^◌, ◌≡◌, ◌≢◌, refl, true, some, slice, le_value, false, inl, List, [], ◌∷◌, arith,
}
use librarius.Error.{ok, out_of_fuel}
use librarius.Source.Memory.{MemorySource, memory_source}
use librarius.Source.Memory.Array.{memory_array}
use librarius.Source.Memory.Returning.{memory-Returning}
use librarius.Las.Slice.{new_slice}
use librarius.Las.Space.{LogicalAddressSpace, read, write_through, flush}
use librarius.Las.Space.Memory.{write_through-read, write_through-read-Disjoint}
use librarius.Las.Space.Rounds.{flush-rounds}
use librarius.Vos.Place.{cell, local}
use librarius.Vos.Place.Words.{Word, Stored}
use librarius.Vos.Pointer.{address}
use librarius.Vos.Pointer.Words.{is_block_lem}
use librarius.Vos.Version.{read_number, commit}
use librarius.Vos.Version.Slot.{indirect, read_number-indirect, commit-indirect}
use librarius.Vos.Alloc.{Allocating, alloc_loop, generic_alloc}
use librarius.Vos.Alloc.Rounds.{alloc_loop-generic_alloc}
use librarius.Tx.{perform}
use librarius.Tx.Writes.{perform-block}
use librarius.Tests.World.{filled, allocator, space, resolves, word_at}

abbrev two : List ℕ
two = 7 ∷ 9 ∷ []

write_through-read_example :
    let (r, las') = write_through (new_slice 4260 2) two space in
    (r ≡ ok tt) × (read (new_slice 4260 2) las' ≡ (ok two, las'))
write_through-read_example =
    write_through-read memory_array space (new_slice 4260 2) 7 4096 allocator two
      (resolves 4260 2 (omega arith) (omega arith) (omega arith) (omega arith)) refl

write_through-read-Disjoint_example :
    (read (new_slice 4262 4) (write_through (new_slice 4260 2) two space).1).0
    ≡ (read (new_slice 4262 4) space).0
write_through-read-Disjoint_example =
    write_through-read-Disjoint memory_array space (new_slice 4260 2) (new_slice 4262 4) 7 4096 4096
      allocator allocator two
      (resolves 4260 2 (omega arith) (omega arith) (omega arith) (omega arith))
      (resolves 4262 4 (omega arith) (omega arith) (omega arith) (omega arith)) refl
      (inl (omega arith))

-- The space with a persistent source behind it.
abbrev backed : LogicalAddressSpace MemorySource
backed = record space {
  sources =
      (4096, allocator)
      ∷ (8192, record allocator { source = record filled { persistent = true } })
      ∷ [];
}

flush-rounds_example :
    (flush 5 (new_slice 4260 2) backed ≡ flush 2 (new_slice 4260 2) backed)
    × ((flush 2 (new_slice 4260 2) backed).0 ≢ out_of_fuel)
flush-rounds_example = flush-rounds memory-Returning (new_slice 4260 2) 3 backed

-- An active page of which 16 bytes are left.
abbrev full_page : Allocating MemorySource
full_page = record {
  las = space;
  active = some (record { region = new_slice 4848 16; slice = new_slice 4848 16 });
}

alloc_loop-generic_alloc_example :
    (alloc_loop 4 false 40 full_page ≡ generic_alloc 40 full_page)
    × ((generic_alloc 40 full_page).0 ≢ out_of_fuel)
alloc_loop-generic_alloc_example = alloc_loop-generic_alloc memory-Returning 40 2 full_page

slot : Word memory_array 7 space 4232 0
unfolding filled le_value slice
slot = word_at 4232 0 (omega arith) (omega arith) (omega arith) refl

read_number-indirect_example : read_number 2 (indirect 4232) space ≡ (ok 0, space)
read_number-indirect_example =
    read_number-indirect memory_array 7 4232 0 (omega arith) (omega arith) slot

commit-indirect_example :
    (las' : LogicalAddressSpace MemorySource) × (commit 2 (local (indirect 4232)) 6 space
      ≡ (ok (cell 4232), las'))
    × Stored memory_array 7 space las' 4232 6
commit-indirect_example =
    commit-indirect memory_array 7 4232 0 6 (omega arith) (omega arith) (omega arith) slot

block_pointer : Word memory_array 7 space 4248 (4352 + 2 ^ 54)
unfolding filled le_value slice
block_pointer = word_at 4248 (4352 + 2 ^ 54) (omega arith) (omega arith) (omega arith) refl

perform-block_example :
    perform (record { dst = cell 4248; current = address (4352 + 2 ^ 54); new = 4512 }) space
    ≡ (ok false, space)
perform-block_example =
    perform-block memory_array 7 4248 (4352 + 2 ^ 54) 4512
      (is_block_lem (4352 + 2 ^ 54) (omega arith)) block_pointer
