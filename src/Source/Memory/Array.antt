-- ===== src/Source/Memory/Array.antt =====
-- A `MemorySource` as an array of bytes: the contract of a byte-addressable source.
use librarius.Prelude.{ℕ, ◌+◌, ◌-◌, ◌≤◌, ◌<◌, ◌≡◌, refl, ap, some, List, length, slice, arith}
use librarius.Usize.{word, wrapping_add}
use librarius.Error.{err, ok, invalid_memory}
use librarius.Source.Contract.{Addressable}
use librarius.Source.Memory.{
  MemorySource, memory_source, overwrite, index, map_at, at, at_mut, read, write,
}

-- The source with the bytes at `o` overwritten.
abbrev pub put : ℕ → List ℕ → MemorySource → MemorySource
put o bs s = record s { map = overwrite o bs s.map }

module _ (o n : ℕ) (s : MemorySource) (small : s.map.len < word) (fits : o + n ≤ s.map.len) where
  no_wrap : wrapping_add o n ≡ o + n
  no_wrap = omega arith

  span : o + n - o ≡ n
  span = omega arith

  map_at-fits : map_at o n s.map ≡ ok (some (slice s.map.byte o n))
  unfolding map_at index
  map_at-fits = ground (arith, no_wrap, ap (slice s.map.byte o) span)

  pub at-fits : at o n s ≡ ok (slice s.map.byte o n)
  unfolding at
  at-fits = rw map_at-fits

  pub at_mut-fits : at_mut o n s ≡ ok (slice s.map.byte o n, λ bs. put o bs s)
  unfolding at_mut
  at_mut-fits = rw at-fits

  pub read-fits : read o n s ≡ (ok (slice s.map.byte o n), s)
  unfolding read
  read-fits = rw at-fits

pub write-fits :
    (o : ℕ) (bs : List ℕ) (s : MemorySource)
    → s.map.len < word
    → o + length bs ≤ s.map.len
    → write o bs s ≡ (ok tt, put o bs s)
unfolding write
write-fits o bs s small fits = rw (map_at-fits o (length bs) s small fits, write)

-- A read or a write of a memory source whose range ends outside the mapping, with an end below
-- 2^64, fails with invalid_memory and changes nothing.
pub outside-refused :
    (o : ℕ) (bs : List ℕ) (s : MemorySource)
    → o + length bs < word
    → s.map.len < o + length bs
    → (read o (length bs) s ≡ (err invalid_memory, s)) × (write o bs s ≡ (err invalid_memory, s))
unfolding read write at map_at
outside-refused o bs s fits outside = (ground arith, ground arith)

abbrev pub memory_array : Addressable MemorySource
memory_array = record {
  content = λ s. s.map.byte;
  size = λ s. s.map.len;
  put = put;
  content-put = λ o bs s. refl;
  size-put = λ o bs s. refl;
  is_byte_addressable-put = λ o bs s. refl;
  is_persistent-put = λ o bs s. refl;
  at_lem = λ o n s b. at-fits o n s;
  at_mut_lem = λ o n s b. at_mut-fits o n s;
  read_lem = λ o n s b. read-fits o n s;
  write_lem = λ o bs s b. write-fits o bs s;
  flush_lem = λ s b. refl;
  length_lem = λ s b. refl;
}
