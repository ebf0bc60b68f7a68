-- ===== src/Tests/Typed.antt =====
-- The theorems on typed calls at a flag that the database holds.
use librarius.Prelude.{
  ℕ, ◌+◌, ◌≡◌, refl, Bool, false, true, ltb, arith, le_value, le_bytes, length-le_bytes,
  le_value-le_bytes, inl, inr, ◌⊎◌, if◌then◌else◌,
}
use librarius.Error.{ok}
use librarius.Source.Memory.{MemorySource, memory_source}
use librarius.Source.Memory.Array.{memory_array}
use librarius.Source.{new_page}
use librarius.Las.Slice.{new_slice}
use librarius.Las.Table.{floor, find}
use librarius.Las.Space.{get_best_byte_addressable, get_best_source}
use librarius.Las.Space.Stock.{Stock}
use librarius.Las.Space.Region.{Region}
use librarius.Vos.Alloc.Fresh.{TwoPages}
use librarius.Vos.Place.{cell, local}
use librarius.Vos.Object.{total}
use librarius.Tx.{Transaction}
use librarius.Engine.{Librarius, run_once}
use librarius.Typed.{Persistent, alloc_typed, layout_of, from_raw, from_raw_ref, read_typed}
use librarius.Typed.Update.{update, update-read_typed, update-read_typed_before}
use librarius.Typed.Session.{run_once-alloc-read}
use librarius.Tests.World.{size, free_pages, more_pages, allocator, space, filled, resolves}
use librarius.Tests.Transactions.{reading}
use librarius.Tests.Snapshots.{copy_at, third, page, writing, writable}

flag_back : (b : Bool) → ltb 0 (le_value (le_bytes 8 (if b then 1 else 0))) ≡ b
flag_back true = ground (arith, le_value-le_bytes 8 1)
flag_back false = ground (arith, le_value-le_bytes 8 0)

-- A flag in a word, as a type of the database.
instance abbrev flag : Persistent Bool
flag = record {
  layout = record {
    size_of = 8;
    to_bytes = λ b. le_bytes 8 (if b then 1 else 0);
    from_bytes = λ bytes. ltb 0 (le_value bytes);
    length-to_bytes = λ b. length-le_bytes 8 (if b then 1 else 0);
    from_bytes-to_bytes = flag_back;
  };
  size = size;
}

abbrev later : Transaction MemorySource
later = record (reading 4240) { snapshot = 10 }

update-read_typed_example :
    ((update 5 (from_raw_ref (cell 4224)) true writing).0 ≡ ok tt)
    × ((read_typed {T = Bool} 5
          (from_raw_ref (cell 4224))
          (record later { vos = (update 5 (from_raw_ref (cell 4224)) true writing).1.vos })).0
        ≡ ok true)
unfolding total
update-read_typed_example =
    update-read_typed ⦃persistent = flag⦄ memory_array 7 4096 allocator writing page 4232 4384 4224
      (copy_at 4352 (local 4384) 9) third writable refl (omega arith) refl refl true later 4
      (omega arith) (omega arith)

update-read_typed_before_example :
    ((update 5 (from_raw_ref (cell 4224)) true writing).0 ≡ ok tt)
    × ((read_typed {T = Bool} 5 (from_raw_ref (cell 4224)) (record (reading 4240) {
      vos = (update 5 (from_raw_ref (cell 4224)) true writing).1.vos;
    })).0
        ≡ (read_typed {T = Bool} 5
            (from_raw_ref (cell 4224))
            (record (reading 4240) { vos = writing.vos })).0)
unfolding total
update-read_typed_before_example =
    update-read_typed_before ⦃persistent = flag⦄ memory_array 7 4096 allocator writing page 4232
      4384 4224 (copy_at 4352 (local 4384) 9) third writable refl (omega arith) refl refl true
      (reading 4240) 4 (omega arith) (omega arith)

-- A database whose source has two free pages.
abbrev pub opened : Librarius MemorySource
opened = record { vos = record { las = space; version = 9 }; root = cell 4224 }

page_region :
    (o : ℕ)
    → (o ≡ 640) ⊎ (o ≡ 768) ⊎ (o ≡ 1024) ⊎ (o ≡ 1152) ⊎ (o ≡ 1280) ⊎ (o ≡ 1408)
    → Region memory_array space (new_slice (o + 4096) 128) 7 4096 allocator
unfolding floor filled
page_region o at = record {
  whole =
      resolves (o + 4096) 128 (omega (arith, at)) (omega (arith, at)) (omega arith)
        (omega (arith, at));
  bounded = omega (arith, at);
  alone = λ j low high. ground (arith, at);
}

pub stock : Stock memory_array 7 4096 space free_pages
unfolding get_best_byte_addressable get_best_source find filled
stock = record {
  allocator = allocator;
  best = refl;
  free = refl;
  sizes = (refl, (refl, (refl, (refl, (refl, (refl, tt))))));
  regions = (
    page_region 640 (inl refl),
    (
      page_region 768 (inr (inl refl)),
      (
        page_region 1024 (inr (inr (inl refl))),
        (
          page_region 1152 (inr (inr (inr (inl refl)))),
          (
            page_region 1280 (inr (inr (inr (inr (inl refl))))),
            (page_region 1408 (inr (inr (inr (inr (inr refl))))), tt),
          ),
        ),
      ),
    ),
  );
  inside =
      (omega arith, (omega arith, (omega arith, (omega arith, (omega arith, (omega arith, tt))))));
}

two_pages : TwoPages memory_array 7 4096 space (new_page 640 128) (new_page 768 128) more_pages
two_pages = record {
  stock = stock;
  apart = inl (omega arith);
  room = omega arith;
  low = omega arith;
}

run_once-alloc-read_example :
    ((run_once (alloc_typed (λ _. true)) opened).0 ≡ ok (from_raw 4896))
    × ((run_once
          (read_typed {T = Bool} 5 (from_raw_ref (local 4896)))
          (run_once (alloc_typed (λ _. true)) opened).1).0
        ≡ ok true)
unfolding total
run_once-alloc-read_example =
    run_once-alloc-read ⦃persistent = flag⦄ memory_array 7 4096 (new_page 640 128)
      (new_page 768 128) more_pages opened two_pages (omega arith) (omega arith)
      (omega arith, omega arith, omega arith) refl (omega arith) (omega arith) (λ _. true) 3
