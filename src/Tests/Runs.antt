-- ===== src/Tests/Runs.antt =====
-- The theorems on runs, on the pieces of a page and on the root at concrete values.
use librarius.Prelude.{
  ℕ, ◌≡◌, ◌≤◌, ◌+◌, ◌==◌, refl, true, none, some, [], ◌∷◌, All, if◌then◌else◌, arith,
}
use librarius.Error.{ok, err, out_of_fuel, tx_aborted, Action}
use librarius.Source.Memory.{MemorySource, memory_source}
use librarius.Source.Allocator.{SourceAllocator}
use librarius.Las.Slice.{LogicalSlice, new_slice, new_stored, split_at}
use librarius.Las.MutRef.{LogicalMutRef, try_consume_bytes}
use librarius.Las.MutRef.Pieces.{Handed, nothing, more, Inside, AllApart, Handed-AllApart}
use librarius.Las.Meta.{Meta}
use librarius.Las.Space.{LogicalAddressSpace, get_best_persistent, get_best_source}
use librarius.Las.Table.{find}
use librarius.Las.Open.{found_root, choose_root}
use librarius.Las.Open.Root.{choose_root-found_root}
use librarius.Vos.Place.{cell}
use librarius.Tx.{Transaction, commit, abort, rollback_all, new_transaction}
use librarius.Engine.{Librarius, run_once, run, finish}
use librarius.Engine.Attempts.{here, again, run-run_once, run-out_of_fuel}
use librarius.Tests.World.{filled, allocator, space}

-- The database at a count of versions.
abbrev at_version : ℕ → Librarius MemorySource
at_version n = record { vos = record { las = space; version = n }; root = cell 4224 }

-- A transaction that aborts at version 9, where another one has committed since.
attempt : Action (Transaction MemorySource) ℕ
attempt t =
    if t.vos.version == 9
    then (err tx_aborted, record t { vos = record (t.vos) { version = 10 } })
    else (ok 7, t)

first_attempt : run_once attempt (at_version 9) ≡ (err tx_aborted, at_version 10)
unfolding run_once finish abort rollback_all new_transaction attempt
first_attempt = refl

second_attempt : run_once attempt (at_version 10) ≡ (ok 7, at_version 10)
unfolding run_once finish commit new_transaction attempt
second_attempt = refl

run-run_once_example : run 2 attempt (at_version 9) ≡ (ok 7, at_version 10)
run-run_once_example =
    run-run_once attempt 1 2 (at_version 9) (at_version 10) (at_version 10) (ok 7) (omega arith)
      (again first_attempt here) second_attempt (λ same. cc same)

run-out_of_fuel_example : run 1 attempt (at_version 9) ≡ (out_of_fuel, at_version 10)
run-out_of_fuel_example =
    run-out_of_fuel attempt 1 (at_version 9) (at_version 10) (again first_attempt here)

abbrev page_left : ℕ → ℕ → LogicalMutRef
page_left offset len = record { region = new_slice offset len; slice = new_slice offset len }

two_pieces :
    Handed (page_left 4352 128) (new_slice 4352 40 ∷ new_slice 4392 8 ∷ []) (page_left 4400 80)
unfolding try_consume_bytes split_at
two_pieces =
    more 40 (new_slice 4352 40) (new_slice 4352 40) refl
      (more 8 (new_slice 4392 8) (new_slice 4392 8) refl nothing)

Handed-AllApart_example :
    All (λ p. Inside p (new_slice 4352 128)) (new_slice 4352 40 ∷ new_slice 4392 8 ∷ [])
    × AllApart (new_slice 4352 40 ∷ new_slice 4392 8 ∷ [])
Handed-AllApart_example =
    Handed-AllApart (page_left 4352 128) (page_left 4400 80)
      (new_slice 4352 40 ∷ new_slice 4392 8 ∷ [])
      record { same_offset = refl; same_len = refl; addressed = omega arith } two_pieces

abbrev kept : SourceAllocator MemorySource
kept = record allocator { source = record filled { persistent = true } }

abbrev kept_space : LogicalAddressSpace MemorySource
kept_space = record space { sources = (4096, kept) ∷ [] }

abbrev metadata : Meta
metadata = record { slice = new_slice 4096 2048; crc = 7; root = 1 ∷ [] }

best : get_best_persistent kept_space ≡ some (4096, kept)
unfolding get_best_persistent get_best_source find
best = refl

choose_root-found_root_example :
    (created opened : LogicalSlice) × (choose_root (λ _. 7) kept_space
      ≡ ok (new_stored created true))
    × (found_root (λ _. 7) metadata kept none ≡ ok (some (new_stored opened true)))
    × (opened.offset + opened.len ≤ created.offset)
choose_root-found_root_example =
    choose_root-found_root (λ _. 7) kept_space kept metadata 4096 best refl refl (omega arith)
      (omega arith)
