-- ===== src/Tests/Objects.antt =====
-- The theorems on reads of objects at the objects of the small address space.
use librarius.Prelude.{
  none, some, ℕ, ◌≡◌, refl, ◌++◌, replicate, false, inr, ◌⊎◌, List, [], ◌∷◌, All, arith, slice,
  le_value, le_bytes,
}
use librarius.Error.{ok, err, invalid_logical_address}
use librarius.Source.Memory.{MemorySource, memory_source}
use librarius.Source.Memory.Array.{memory_array}
use librarius.Las.Slice.{new_slice, new_stored}
use librarius.Vos.Pointer.{is_some, is_byte_addressable, into_stored_slice_offset}
use librarius.Vos.Object.{header_from_slice, header_bytes, new_header, total}
use librarius.Vos.Version.Slot.{indirect, read_number-direct}
use librarius.Vos.Place.{cell, local}
use librarius.Vos.Reader.{read_object}
use librarius.Vos.Reader.History.{
  Copy, History, ended, before, visible, IsNewest, read_object-snapshot,
}
use librarius.Tx.{Transaction}
use librarius.Tests.World.{filled, space, size, loaded, stored}

abbrev zeros : List ℕ
zeros = replicate 8 0

abbrev newer_copy : Copy
newer_copy = record {
  number = 9;
  found = record { userdata = zeros; place = cell 4224; header = 4352 };
}

abbrev older_copy : Copy
older_copy = record {
  number = 3;
  found = record { userdata = zeros; place = cell 4376; header = 4480 };
}

object_bytes : ℕ → ℕ → List ℕ
unfolding header_bytes new_header le_bytes
object_bytes version other = header_bytes (new_header size version other) ++ zeros

history : History space size (cell 4224) (newer_copy ∷ older_copy ∷ [])
unfolding filled slice le_value is_some into_stored_slice_offset object_bytes header_from_slice
    new_stored is_byte_addressable total
history =
    before 4384 (new_slice 4352 40) (object_bytes 9 4512) 9
      (loaded 4224 4384 (omega arith) (omega arith) (omega arith) refl) refl refl
      (stored 4352 40 (omega arith) (omega arith) (omega arith) (omega arith)) refl
      (read_number-direct memory_array 7 space 1 9 (omega arith))
      (before 4512 (new_slice 4480 40) (object_bytes 3 0) 3
        (loaded 4376 4512 (omega arith) (omega arith) (omega arith) refl) refl refl
        (stored 4480 40 (omega arith) (omega arith) (omega arith) (omega arith)) refl
        (read_number-direct memory_array 7 space 1 3 (omega arith))
        (ended 0 (loaded 4504 0 (omega arith) (omega arith) (omega arith) refl) refl))

read_object-snapshot_example :
    ((c : Copy) × (read_object 3 5 (cell 4224) size false space ≡ (ok c.found, space))
      × IsNewest 5 (newer_copy ∷ older_copy ∷ []) c)
    ⊎ ((read_object 3 5 (cell 4224) size false space ≡ (err invalid_logical_address, space))
        × All (λ d. visible 5 d ≡ false) (newer_copy ∷ older_copy ∷ []))
read_object-snapshot_example =
    read_object-snapshot space size 5 3 (cell 4224) (newer_copy ∷ older_copy ∷ []) (omega arith)
      history ((inr (omega arith), tt), (tt, tt))

abbrev own_copy : Copy
own_copy = record {
  number = 9;
  found = record { userdata = zeros; place = local 4384; header = 4352 };
}

-- A transaction that sees version 5.
abbrev late : Transaction MemorySource
late = record {
  vos = record { las = space; version = 9 };
  root = cell 4224;
  object_active = none;
  log_active = none;
  snapshot = 5;
  version = some (indirect 4232);
  writeset = [];
  readset = [];
}
