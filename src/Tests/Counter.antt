-- ===== src/Tests/Counter.antt =====
-- The counter on a database of the small address space whose root holds 0.
use librarius.Prelude.{
  ℕ, none, some, [], ◌∷◌, ◌≡◌, ◌+◌, ◌≤◌, refl, arith, inl, inr, le_bytes, length-le_bytes, le_value,
  slice,
}
use librarius.Error.{ok, err, tx_aborted, invalid_memory}
use librarius.Source.Memory.{memory_source}
use librarius.Source.Memory.Array.{memory_array}
use librarius.Las.Slice.{LogicalSlice, new_slice}
use librarius.Vos.Place.{cell, local}
use librarius.Vos.Object.{total, new_with_usize}
use librarius.Vos.Reader.Chain.Along.{Along}
use librarius.Tx.Stocked.{Stocked, Widths, Clear, ClearSlot}
use librarius.Source.{new_page}
use librarius.Tx.{read}
use librarius.Engine.{run_once, run}
use librarius.Engine.Rewrite.{rewrite, rewrite-read, rewrite-read_before}
use librarius.Engine.Counter.{root_size, counter, counted}
use librarius.Engine.Counter.Step.{CountsTo}
use librarius.Engine.Counter.Schedule.{counting, run_all, run_all-counting}
use librarius.Engine.Counter.Interleaved.{race, race_lem}
use librarius.Engine.Counter.Sequential.{count_from, counter-count_from}
use librarius.Tests.World.{size, filled, free_pages, more_pages, word_at}
use librarius.Tests.Snapshots.{copy_at, third, second_there, third_there}
use librarius.Tests.Typed.{opened, stock}

-- What lies behind the cell and before the free pages.
clear :
    (u : LogicalSlice)
    → 4232 ≤ u.offset
    → u.offset + u.len ≤ 4736
    → Clear memory_array 7 4096 size 4224 free_pages u
clear u low high = (
  inl low,
  (
    inr high,
    (
      inr (omega (arith, high)),
      (
        inr (omega (arith, high)),
        (inr (omega (arith, high)), (inr (omega (arith, high)), (inr (omega (arith, high)), tt))),
      ),
    ),
  ),
)

along :
    Along memory_array 7
      (Clear memory_array 7 4096 size 4224 free_pages)
      (ClearSlot memory_array 7 4096 size 4224 free_pages)
      (second_there (local 4384) refl)
unfolding second_there third_there
along = (
  tt,
  clear (new_slice 4352 40) (omega arith) (omega arith),
  tt,
  (
    clear (new_slice 4376 8) (omega arith) (omega arith),
    clear (new_slice 4480 40) (omega arith) (omega arith),
    tt,
    clear (new_slice 4504 8) (omega arith) (omega arith),
  ),
)

stocked :
    Stocked memory_array 7 4096 size 4224 opened.vos free_pages (copy_at 4352 (local 4384) 9) third
unfolding total filled slice le_value
stocked = record {
  pointer = 4384;
  pointed = word_at 4224 4384 (omega arith) (omega arith) (omega arith) refl;
  pointer_placed = omega arith;
  copies = (second_there (local 4384) refl, along);
  cell_apart = (
    inr (omega arith),
    (
      inr (omega arith),
      (inr (omega arith), (inr (omega arith), (inr (omega arith), (inr (omega arith), tt)))),
    ),
  );
  committed = (omega arith, omega arith);
  stock = stock;
  usable = (
    omega arith,
    omega arith,
    (
      inl (omega arith),
      (inl (omega arith), (inl (omega arith), (inl (omega arith), (inl (omega arith), tt)))),
    ),
    (
      omega arith,
      omega arith,
      (inl (omega arith), (inl (omega arith), (inl (omega arith), (inl (omega arith), tt)))),
      (
        omega arith,
        omega arith,
        (inl (omega arith), (inl (omega arith), (inl (omega arith), tt))),
        (
          omega arith,
          omega arith,
          (inl (omega arith), (inl (omega arith), tt)),
          (omega arith, omega arith, (inl (omega arith), tt), (omega arith, omega arith, tt, tt)),
        ),
      ),
    ),
  );
}

widths : Widths memory_array 7 4096 size 4224
unfolding total
widths = (omega arith, omega arith, omega arith)

from_zero : CountsTo memory_array 7 4096 4224 opened free_pages 0 1
unfolding root_size new_with_usize filled slice le_bytes
from_zero = record {
  newest = copy_at 4352 (local 4384) 9;
  others = third;
  rooted = refl;
  value = refl;
  in_range = omega arith;
  count = refl;
  stocked = stocked;
}

counter-count_from_example : (counter 3 6 3 opened).0 ≡ ok (1 ∷ 2 ∷ 3 ∷ [], 3)
unfolding count_from
counter-count_from_example =
    counter-count_from memory_array 7 4096 4224 2 5 3 opened free_pages 0 1 from_zero (omega arith)
      (omega arith) (omega arith) (omega arith)

rewrite-read_example :
    ((run_once (rewrite {R = ℕ} 5 (cell 4224) size (le_bytes 8 7) (ok 7)) opened).0 ≡ ok 7)
    × ((run_once
          (read 4 (cell 4224) size)
          (run_once (rewrite {R = ℕ} 5 (cell 4224) size (le_bytes 8 7) (ok 7)) opened).1).0
        ≡ ok (le_bytes 8 7))
unfolding total
rewrite-read_example =
    rewrite-read memory_array 7 4096 size 4224 opened (new_page 640 128) (new_page 768 128)
      more_pages (copy_at 4352 (local 4384) 9) third stocked widths (omega arith) (le_bytes 8 7)
      (length-le_bytes 8 7) 4 7 (omega arith)

rewrite-read_before_example :
    ((run_once (rewrite {R = ℕ} 5 (cell 4224) size (le_bytes 8 7) (err tx_aborted)) opened).0
      ≡ err tx_aborted)
    × ((run_once
          (read 4 (cell 4224) size)
          (run_once
            (rewrite {R = ℕ} 5 (cell 4224) size (le_bytes 8 7) (err tx_aborted))
            opened).1).0
        ≡ ok (le_bytes 8 0))
unfolding total filled slice le_bytes
rewrite-read_before_example =
    rewrite-read_before {R = ℕ} memory_array 7 4096 size 4224 opened (new_page 640 128)
      (new_page 768 128) more_pages (copy_at 4352 (local 4384) 9) third stocked widths (omega arith)
      (le_bytes 8 7) (length-le_bytes 8 7) 4 tx_aborted (omega arith)

-- One thread's transaction, two attempts of others beside it, and one thread behind it.
race_lem_example : race 3 6 2 opened ≡ record {
  closure = ok 1;
  beside = err tx_aborted ∷ err tx_aborted ∷ [];
  committed = ok tt;
  behind = ok 2;
  total = ok 2;
}
race_lem_example =
    race_lem memory_array 7 4096 4224 2 5 2 opened (new_page 640 128) (new_page 768 128) more_pages
      0 1 from_zero (omega arith) (omega arith) (omega arith) (omega arith)

-- One thread commits, one fails, and one commits.
run_all-counting_example :
    ((run_all 6 (none ∷ some invalid_memory ∷ none ∷ []) opened).0
      ≡ ok 1 ∷ err invalid_memory ∷ ok 2 ∷ [])
    × ((run 3 (counted 6) (run_all 6 (none ∷ some invalid_memory ∷ none ∷ []) opened).1).0 ≡ ok 2)
unfolding counting
run_all-counting_example =
    run_all-counting memory_array 7 4096 4224 5 2 (none ∷ some invalid_memory ∷ none ∷ []) opened
      free_pages 0 1 from_zero (omega arith) (omega arith) (omega arith) (omega arith)
