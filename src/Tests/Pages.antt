-- ===== src/Tests/Pages.antt =====
-- The theorems on a source's pages at concrete allocators.
use librarius.Prelude.{◌^◌, ◌≡◌, refl, inl, [], ◌∷◌, arith}
use librarius.Error.{ok, err, invalid_memory}
use librarius.Source.{new_page}
use librarius.Source.Memory.{MemorySource, memory_source, read, write}
use librarius.Source.Memory.Array.{outside-refused}
use librarius.Source.Memory.Length.{memory_keeps, memory_keeps-Long}
use librarius.Source.Allocator.{SourceAllocator, allocate_page, initialize}
use librarius.Source.Allocator.Freelist.{dequeue, allocate_page-dequeue}
use librarius.Source.Allocator.Pages.{History, IsSound, Reach, here, next, allocate, Reach-IsSound}
use librarius.Source.Allocator.Scan.{Succeeds}
use librarius.Source.Allocator.Start.{Fresh, initialize-IsSound}
use librarius.Vos.Store.{valid_page}
use librarius.Tests.World.{filled, allocator}

outside-refused_example :
    (read 2047 (2) filled ≡ (err invalid_memory, filled))
    × (write 2047 (1 ∷ 2 ∷ []) filled ≡ (err invalid_memory, filled))
unfolding filled
outside-refused_example = outside-refused 2047 (1 ∷ 2 ∷ []) filled (omega arith) (omega arith)

abbrev two_free : SourceAllocator MemorySource
two_free = record allocator { freelist = new_page 640 128 ∷ new_page 768 128 ∷ [] }

allocate_page-dequeue_example : allocate_page two_free ≡ dequeue two_free two_free.freelist
allocate_page-dequeue_example = allocate_page-dequeue two_free (refl, (refl, tt))

abbrev idle : History MemorySource
idle = record { allocator = two_free; live = [] }

idle-IsSound : IsSound 2048 idle
idle-IsSound = record {
  free_pages = (
    record { sized = refl; aligned = refl; behind = omega arith; inside = omega arith },
    (record { sized = refl; aligned = refl; behind = omega arith; inside = omega arith }, tt),
  );
  live_pages = tt;
  free_apart = ((inl (omega arith), tt), (tt, tt));
  live_apart = tt;
  across = (tt, (tt, tt));
}

-- One page is handed out.
abbrev busy : History MemorySource
busy = record {
  allocator = record allocator { freelist = new_page 768 128 ∷ [] };
  live = new_page 640 128 ∷ [];
}

first_page : allocate_page two_free ≡ (ok (new_page 640 128), busy.allocator)
first_page = allocate_page-dequeue two_free (refl, (refl, tt))

idle-busy : Reach idle busy
idle-busy = next here (allocate (new_page 640 128) busy.allocator first_page)

Reach-IsSound_example : IsSound 2048 busy
Reach-IsSound_example = Reach-IsSound 2048 idle-IsSound idle-busy

initialize-IsSound_example :
    Succeeds
      (Fresh 2048)
      (initialize (λ _. 7) valid_page (record { source = filled; freelist = []; pagesize = 2 ^ 7 }))
unfolding filled
initialize-IsSound_example =
    initialize-IsSound 7 2048 (omega arith) (omega arith) (omega arith) (omega arith) (λ _. 7)
      valid_page (memory_keeps 2048) filled (memory_keeps-Long 2048 filled refl)
