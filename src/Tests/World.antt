-- ===== src/Tests/World.antt =====
-- A small address space for the examples: one memory source of 2048 bytes at 4096, in pages of 128.
use librarius.Prelude.{
  ℕ, ◌+◌, ◌^◌, ◌-◌, ◌%◌, ◌≤◌, ◌<◌, ◌≡◌, refl, false, List, [], ◌∷◌, arith, le_bytes, store,
  le_value, slice,
}
use librarius.Error.{ok}
use librarius.Source.Memory.{MemorySource, memory_source}
use librarius.Source.Memory.Array.{memory_array}
use librarius.Source.{Page, new_page}
use librarius.Source.Allocator.{SourceAllocator}
use librarius.Las.Slice.{new_slice, byte}
use librarius.Las.Table.{floor}
use librarius.Las.Space.{LogicalAddressSpace}
use librarius.Las.Space.Translate.{Resolves}
use librarius.Las.Space.Memory.{read-Holds}
use librarius.Las.Space
use librarius.Vos.Place.{cell, load}
use librarius.Vos.Place.Words.{Word, load_lem}
use librarius.Vos.Object.{ObjectSize, new_size, new_header, header_bytes}

abbrev pub size : ObjectSize
size = new_size 0 8

-- An object of version 9 at 4352 whose older copy, of version 3, stands at 4480; a pointer to it at
-- 4224; a slot for a version at 4232; a pointer at 4240 to a newer copy of it at 4608, whose version
-- is that slot; and a pointer at 4248 that is a block pointer.
unfoldable pub filled : MemorySource
unfolding store le_bytes header_bytes new_header
filled = record {
  map = record {
    len = 2048;
    byte =
        store
          (store
            (store
              (store (store (store (λ _. 0) 128 (le_bytes 8 4384)) 144 (le_bytes 8 4640)) 152
                (le_bytes 8 (4352 + 2 ^ 54)))
              256 (header_bytes (new_header size 9 4512)))
            384 (header_bytes (new_header size 3 0)))
          512 (header_bytes (new_header size (4232 + 2 ^ 63) 4384));
  };
  persistent = false;
}

abbrev pub more_pages : List Page
more_pages = new_page 1024 128 ∷ new_page 1152 128 ∷ new_page 1280 128 ∷ new_page 1408 128 ∷ []

abbrev pub free_pages : List Page
free_pages = new_page 640 128 ∷ new_page 768 128 ∷ more_pages

abbrev pub allocator : SourceAllocator MemorySource
allocator = record { source = filled; freelist = free_pages; pagesize = 128 }

abbrev pub space : LogicalAddressSpace MemorySource
space = record {
  sources = (4096, allocator) ∷ [];
  pagesize = 128;
  root = byte (new_slice 4224 64);
  root_bytes = new_slice 4224 64;
  backing = [];
}

-- A slice inside one page of the space resolves.
pub resolves :
    (c len : ℕ)
    → 4096 ≤ c
    → c - 4096 < 2048
    → 0 < len
    → (c - 4096) % 128 + len ≤ 128
    → Resolves memory_array space (new_slice c len) 7 4096 allocator
unfolding floor filled
resolves c len above below positive in_page = record {
  found = ground arith;
  ordered = (tt, tt);
  paged = refl;
  byte_addressable = refl;
  sized = omega arith;
  placed = record {
    small = omega arith;
    above = above;
    addressed = omega arith;
    positive = positive;
    in_page = in_page;
  };
  inside = omega arith;
}

-- The words of the space.
pub word_at :
    (c v : ℕ)
    → 4096 ≤ c
    → c - 4096 < 2048
    → (c - 4096) % 128 + 8 ≤ 128
    → le_value (slice (filled.map.byte) (c - 4096) 8) ≡ v
    → Word memory_array 7 space c v
word_at c v above below in_page value = record {
  base = 4096;
  bytes = slice (filled.map.byte) (c - 4096) 8;
  there = record {
    allocator = allocator;
    resolves = resolves c 8 above below (omega arith) in_page;
    bytes_there = refl;
  };
  value = value;
}

-- What `read` and `load` give there.
pub stored :
    (c n : ℕ)
    → 4096 ≤ c
    → c - 4096 < 2048
    → 0 < n
    → (c - 4096) % 128 + n ≤ 128
    → Space.read (new_slice c n) space ≡ (ok (slice (filled.map.byte) (c - 4096) n), space)
stored c n above below positive in_page =
    read-Holds memory_array space (new_slice c n) 7 4096 _ record {
      allocator = allocator;
      resolves = resolves c n above below positive in_page;
      bytes_there = refl;
    }

pub loaded :
    (c v : ℕ)
    → 4096 ≤ c
    → c - 4096 < 2048
    → (c - 4096) % 128 + 8 ≤ 128
    → le_value (slice (filled.map.byte) (c - 4096) 8) ≡ v
    → load (cell c) space ≡ (ok v, space)
loaded c v above below in_page value =
    load_lem memory_array 7 c v (word_at c v above below in_page value)
