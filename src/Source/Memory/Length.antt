-- ===== src/Source/Memory/Length.antt =====
-- The length of a `MemorySource` under its calls.
use librarius.Prelude.{ℕ, ◌≡◌, ap, arith}
use librarius.Error.{ok}
use librarius.Source.Memory.{MemorySource, memory_source, map_at, read, write}
use librarius.Source.Allocator.Start.{KeepsLength}

pub memory_keeps : (limit : ℕ) → KeepsLength MemorySource limit
unfolding read write map_at
memory_keeps limit = record {
  Long = λ s. s.map.len ≡ limit;
  length_lem = λ s long. ap ok long;
  read_lem = λ s o n long. long;
  write_lem = λ s o bs long. ground (arith, long);
  flush_lem = λ s long. long;
}

pub memory_keeps-Long :
    (limit : ℕ) (s : MemorySource) → s.map.len ≡ limit → (memory_keeps limit).Long s
unfolding memory_keeps
memory_keeps-Long limit s long = long
