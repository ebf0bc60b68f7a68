-- ===== src/Source/Memory.antt =====
-- src/source/memory_source.rs: a source in anonymous mapped memory. What `mmap` returns is a
-- parameter: an error number, or the contents of the new mapping.
pub mod Returning
pub mod Array
pub mod Length
use librarius.Prelude.{
  ℕ, ◌-◌, Bool, true, false, Option, none, some, List, ◌⊎◌, inl, inr, ltb, leb, ◌&&◌, length, Bytes,
  slice, store, if◌then◌else◌,
}
use librarius.Usize.{wrapping_add}
use librarius.Error.{
  invalid_memory, memory_alloc, Result, ok, err, panic, out_of_fuel, ok_or, and_then, Action,
}
use librarius.Source.{Source}

-- The mapping's bytes, and its length. A byte outside the length is never read.
pub record MemoryMap : Type 0 where
  pub len : ℕ
  pub byte : Bytes

pub record MemorySource : Type 0 where
  pub map : MemoryMap
  pub persistent : Bool

-- `&self.data[start..end]`
index : ℕ → ℕ → MemoryMap → Result (List ℕ)
index start stop map =
    if leb start stop && leb stop map.len then ok (slice map.byte start (stop - start)) else panic

-- `MemoryMap::at`
map_at : ℕ → ℕ → MemoryMap → Result (Option (List ℕ))
unfolding index
map_at offset len map =
    if ltb map.len (wrapping_add offset len)
    then ok none
    else and_then (index offset (wrapping_add offset len) map) λ bytes. ok (some bytes)

-- The mapping after the bytes at `offset` are overwritten.
abbrev overwrite : ℕ → List ℕ → MemoryMap → MemoryMap
overwrite offset bytes map = record map { byte = store map.byte offset bytes }

-- `MemoryMap::new`
new_map : ℕ → (ℕ ⊎ Bytes) → Result MemoryMap
new_map len (inl errno) = err (memory_alloc errno)
new_map len (inr content) = ok (record { len = len; byte = content })

-- `MemorySource::new`
abbrev pub new : ℕ → (ℕ ⊎ Bytes) → Result MemorySource
unfolding new_map
new len mapped = and_then (new_map len mapped) λ map. ok (record { map = map; persistent = false })

unfoldable pub at : ℕ → ℕ → MemorySource → Result (List ℕ)
unfolding map_at
at offset len s = and_then (map_at offset len s.map) λ found. ok_or found invalid_memory

unfoldable pub at_mut : ℕ → ℕ → MemorySource → Result (List ℕ × (List ℕ → MemorySource))
unfolding at
at_mut offset len s =
    and_then (at offset len s)
      λ bytes. ok (bytes, λ bytes'. record s { map = overwrite offset bytes' s.map })

unfoldable pub read : ℕ → ℕ → Action MemorySource (List ℕ)
unfolding at
read offset len s = (at offset len s, s)

unfoldable pub write : ℕ → List ℕ → Action MemorySource (Unit {0})
unfolding map_at
write offset bytes s = elim (map_at offset (length bytes) s.map) [
  | ok (some _) ↦ (ok tt, record s { map = overwrite offset bytes s.map })
  | ok none ↦ (err invalid_memory, s)
  | err e ↦ (err e, s)
  | panic ↦ (panic, s)
  | out_of_fuel ↦ (out_of_fuel, s)
]

instance abbrev pub memory_source : Source MemorySource
memory_source = record {
  is_byte_addressable = λ _. true;
  is_persistent = λ s. s.persistent;
  perf_level = λ _. 100;
  length = λ s. ok s.map.len;
  read = read;
  write = write;
  flush = λ s. (ok tt, s);
  at = at;
  at_mut = at_mut;
  flush_slice = λ _ _. ok tt;
}
