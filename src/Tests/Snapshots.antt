-- ===== src/Tests/Snapshots.antt =====
-- The theorems on the readers of an object at the copies in the small address space.
use librarius.Prelude.{
  ℕ, ◌+◌, ◌-◌, ◌%◌, ◌≤◌, ◌<◌, ◌≡◌, refl, false, some, List, [], ◌∷◌, arith, drop, slice, le_value,
  inl, inr,
}
use librarius.Error.{ok, err, tx_aborted}
use librarius.Source.Memory.{MemorySource, memory_source}
use librarius.Source.Memory.Array.{memory_array}
use librarius.Las.Slice.{LogicalSlice, new_slice, new_stored}
use librarius.Las.MutRef.{LogicalMutRef}
use librarius.Las.MutRef.Pieces.{IsTight}
use librarius.Las.Table.{floor}
use librarius.Las.Space.Memory.{Holds}
use librarius.Las.Space.Region.{Region}
use librarius.Vos.Pointer.{address, is_some, is_byte_addressable, into_stored_slice_offset}
use librarius.Vos.Place.{Place, cell, local}
use librarius.Vos.Place.Words.{Word}
use librarius.Vos.Version.Slot.{indirect}
use librarius.Vos.Object.{object_header_size, header_from_slice, total}
use librarius.Vos.Reader.{read_object}
use librarius.Vos.Reader.History.{Copy}
use librarius.Vos.Reader.Chain.{PlaceHolds, Chain, link, last, direct, in_slot}
use librarius.Vos.Reader.Chain.Frame.{Avoids}
use librarius.Vos.Reader.Chain.Publish.{AllBeside}
use librarius.Tx.{Transaction, commit, write, read}
use librarius.Tx.Snapshot.{commit-snapshot}
use librarius.Tx.Write.{Writable, Kept}
use librarius.Tx.Race.{write-commit}
use librarius.Tx.Write.Seen.{write-read}
use librarius.Tests.World.{filled, space, size, resolves, word_at, allocator}
use librarius.Tests.Transactions.{slot, reading, uncommitted}

abbrev pub copy_bytes : ℕ → List ℕ
copy_bytes a = slice (filled.map.byte) (a - 4096) 40

abbrev pub copy_at : ℕ → Place → ℕ → Copy
copy_at a place n = record {
  number = n;
  found = record { userdata = drop object_header_size (copy_bytes a); place = place; header = a };
}

pub held :
    (a : ℕ)
    → 4096 ≤ a
    → a - 4096 < 2048
    → (a - 4096) % 128 + 40 ≤ 128
    → Holds memory_array space (new_slice a 40) 7 4096 (copy_bytes a)
held a above below in_page = record {
  allocator = allocator;
  resolves = resolves a 40 above below (omega arith) in_page;
  bytes_there = refl;
}

-- The copies of the object, from the oldest one to the one that is not committed yet.
abbrev pub third : List Copy
third = copy_at 4480 (cell 4376) 3 ∷ []

abbrev second : Place → List Copy
second place = copy_at 4352 place 9 ∷ third

abbrev first : List Copy
first = copy_at 4608 (cell 4240) 0 ∷ second (cell 4632)

unfoldable pub third_there : Chain memory_array 7 space size (cell 4376) third
unfolding filled slice le_value into_stored_slice_offset new_stored is_byte_addressable address
    is_some header_from_slice total
third_there =
    link 4512 (new_slice 4480 40) 4096 (copy_bytes 4480) 3
      (word_at 4376 4512 (omega arith) (omega arith) (omega arith) refl) refl refl
      (held 4480 (omega arith) (omega arith) (omega arith)) refl (direct 3 (omega arith))
      (last 0 (word_at 4504 0 (omega arith) (omega arith) (omega arith) refl) refl)

unfoldable pub second_there :
    (place : Place)
    → PlaceHolds memory_array 7 space place 4384
    → Chain memory_array 7 space size place (second place)
unfolding filled slice le_value into_stored_slice_offset new_stored is_byte_addressable address
    is_some header_from_slice total
second_there place w =
    link 4384 (new_slice 4352 40) 4096 (copy_bytes 4352) 9 w refl refl
      (held 4352 (omega arith) (omega arith) (omega arith)) refl (direct 9 (omega arith))
      third_there

unfoldable first_there : Chain memory_array 7 space size (cell 4240) first
unfolding filled slice le_value into_stored_slice_offset new_stored is_byte_addressable address
    is_some header_from_slice total
first_there =
    link 4640 (new_slice 4608 40) 4096 (copy_bytes 4608) 0
      (word_at 4240 4640 (omega arith) (omega arith) (omega arith) refl) refl refl
      (held 4608 (omega arith) (omega arith) (omega arith)) refl
      (in_slot 4232 0 (omega arith) (omega arith) slot)
      (second_there (cell 4632) (word_at 4632 4384 (omega arith) (omega arith) (omega arith) refl))

beside : AllBeside memory_array 7 4232 first_there
unfolding first_there second_there third_there
beside = (
  inl (omega arith),
  inl (omega arith),
  inl refl,
  (
    inl (omega arith),
    inl (omega arith),
    tt,
    (inl (omega arith), inl (omega arith), tt, inl (omega arith)),
  ),
)

commit-snapshot_example :
    ((commit (reading 4240)).0 ≡ ok tt)
    × ((read_object 5 9 (cell 4240) size false (commit (reading 4240)).1.vos.las).0
        ≡ (read_object 5 9 (cell 4240) size false space).0)
commit-snapshot_example =
    commit-snapshot memory_array 7 (reading 4240) 4232 (0 ∷ []) refl (omega arith) (omega arith)
      slot uncommitted refl size (cell 4240) 9 5 first first_there beside (omega arith)
      (omega arith)

-- A transaction with a version slot and a page with room.
abbrev pub page : LogicalMutRef
page = record { region = new_slice 4992 128; slice = new_slice 4992 128 }

abbrev pub writing : Transaction MemorySource
writing = record (reading 4224) { object_active = some page; readset = [] }

pub page-IsTight : IsTight page
page-IsTight = record { same_offset = refl; same_len = refl; addressed = omega arith }

abbrev copying : LogicalSlice
copying = new_slice 4992 40

pub region : Region memory_array space copying 7 4096 allocator
unfolding floor filled
region = record {
  whole = resolves 4992 40 (omega arith) (omega arith) (omega arith) (omega arith);
  bounded = omega arith;
  alone = λ j low high. ground arith;
}

kept :
    Avoids memory_array 7
      (Kept memory_array 7 4096 allocator writing page size 4232 4384 4224)
      (second_there (local 4384) refl)
unfolding second_there third_there
kept = (
  tt,
  (inr (omega arith), inl (omega arith)),
  tt,
  (
    (inr (omega arith), inl (omega arith)),
    (inr (omega arith), inl (omega arith)),
    tt,
    (inr (omega arith), inl (omega arith)),
  ),
)

pointer : Word memory_array 7 space 4224 4384
unfolding filled le_value slice
pointer = word_at 4224 4384 (omega arith) (omega arith) (omega arith) refl

beside_second : AllBeside memory_array 7 4232 (second_there (local 4384) refl)
unfolding second_there third_there
beside_second =
    (tt, inl (omega arith), tt, (inl (omega arith), inl (omega arith), tt, inl (omega arith)))

pub writable :
    Writable memory_array 7 4096 allocator writing page size 4232 4384 4224
      (copy_at 4352 (local 4384) 9)
      third
unfolding total
writable = record {
  begun = refl;
  slot = slot;
  pointer = pointer;
  slot_placed = omega arith;
  pointer_placed = omega arith;
  copy_placed = omega arith;
  pointers_fit = omega arith;
  user_data_fits = omega arith;
  positive = omega arith;
  active = refl;
  tight = page-IsTight;
  fits = omega arith;
  region = region;
  apart = inr (omega arith);
  slot_apart = (inr (omega arith), inl (omega arith));
  copies = (second_there (local 4384) refl, beside_second);
  avoids = kept;
}

-- Another transaction, with a slot of its own.
abbrev rival : Transaction MemorySource
rival = record (reading 4224) { version = some (indirect 4256) }

write-commit_example :
    ((write 5 (cell 4240) size (record rival { vos = (reading 4240).vos })).0 ≡ err tx_aborted)
    × ((commit (reading 4240)).0 ≡ ok tt)
    × ((write 5 (cell 4240) size (record rival { vos = (commit (reading 4240)).1.vos })).0
        ≡ err tx_aborted)
unfolding first_there
write-commit_example =
    write-commit memory_array 7 (reading 4240) rival 4232 4240 4 (0 ∷ []) (indirect 4256) size
      (copy_at 4608 (cell 4240) 0) (second (cell 4632)) first_there refl (omega arith) (omega arith)
      slot uncommitted refl beside refl refl (omega arith)

write-read_example :
    ((write 5 (cell 4224) size writing).0 ≡ ok (new_slice 5024 8))
    × ((read 5
          (cell 4224)
          size
          (record (reading 4240) { vos = (write 5 (cell 4224) size writing).1.vos })).0
        ≡ (read 5 (cell 4224) size (record (reading 4240) { vos = (reading 4240).vos })).0)
unfolding total
write-read_example =
    write-read memory_array 7 4096 allocator writing page size 4232 4384 4224
      (copy_at 4352 (local 4384) 9) third writable (reading 4240) 5 refl (omega arith)
