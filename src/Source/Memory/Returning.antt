-- ===== src/Source/Memory/Returning.antt =====
-- src/source/memory_source.rs: every method of the memory source comes back.
use librarius.Prelude.{
  ℕ, List, length, leb, ltb, ◌&&◌, some, ◌≡◌, sym, subst, Bool-cases, inl, inr, arith,
}
use librarius.Usize.{wrapping_add}
use librarius.Error.{invalid_memory, Result, ok, err, panic}
use librarius.Source.Allocator.Ends.{Ends, Returning, and_then-Ends, ok_or-Ends, if-Ends}
use librarius.Source.Memory.{
  MemoryMap, MemorySource, memory_source, index, map_at, at, at_mut, read, write, overwrite,
}

index-Ends : (start stop : ℕ) (map : MemoryMap) → Ends (index start stop map)
unfolding index
index-Ends start stop map = if-Ends (leb start stop && leb stop map.len) _ _ tt tt

map_at-Ends : (offset len : ℕ) (map : MemoryMap) → Ends (map_at offset len map)
unfolding map_at
map_at-Ends offset len map =
    let found = index offset (wrapping_add offset len) map in
    if-Ends (ltb map.len (wrapping_add offset len)) _ _ tt
      (and_then-Ends found (λ bytes. ok (some bytes)) (index-Ends offset _ map) λ _. tt)

at-Ends : (offset len : ℕ) (s : MemorySource) → Ends (at offset len s)
unfolding at
at-Ends offset len s =
    and_then-Ends (map_at offset len s.map) _ (map_at-Ends offset len s.map)
      λ found. ok_or-Ends found invalid_memory

at_mut-Ends : (offset len : ℕ) (s : MemorySource) → Ends (at_mut offset len s)
unfolding at_mut
at_mut-Ends offset len s = and_then-Ends (at offset len s) _ (at-Ends offset len s) λ _. tt

read-Ends : (offset len : ℕ) (s : MemorySource) → Ends (read offset len s).0
unfolding read
read-Ends offset len s = at-Ends offset len s

write-Ends : (offset : ℕ) (bytes : List ℕ) (s : MemorySource) → Ends (write offset bytes s).0
unfolding write map_at index
write-Ends offset bytes s =
    let stop = wrapping_add offset (length bytes) in
    elim (Bool-cases (ltb s.map.len stop)) [
      | inl outside ↦ ended (err invalid_memory, s) (ground (arith, outside)) tt
      | inr inside ↦ elim (Bool-cases (leb offset stop && leb stop s.map.len)) [
        | inl ordered ↦
            ended (ok tt, record s { map = overwrite offset bytes s.map })
              (ground (arith, inside, ordered)) tt
        | inr wrapped ↦ ended (panic, s) (ground (arith, inside, wrapped)) tt
      ]
    ]
  where
    ended :
        (x : Result (Unit {0}) × MemorySource)
        → write offset bytes s ≡ x
        → Ends x.0
        → Ends (write offset bytes s).0
    ended x same h = subst (λ y. Ends y.0) (sym same) h

pub memory-Returning : Returning MemorySource
memory-Returning = record {
  read_ends = read-Ends;
  write_ends = write-Ends;
  flush_ends = λ s. tt;
  at_ends = at-Ends;
  at_mut_ends = at_mut-Ends;
  flush_slice_ends = λ bytes s. tt;
}
