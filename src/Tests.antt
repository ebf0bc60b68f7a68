-- ===== src/Tests.antt =====
-- Runs of the model on small inputs: a database is opened on zeroed memory, and transactions run.
pub mod World
mod Arithmetic
mod Pages
mod Words
mod Objects
mod Transactions
mod Snapshots
mod Typed
mod Counter
mod Runs
use librarius.Prelude.{
  ℕ, ◌+◌, ◌%◌, Bool, true, false, Option, none, some, List, [], ◌∷◌, ◌≡◌, refl, le_bytes, le_value,
  inr,
}
use librarius.Error.{Result, ok, err, Action, ◌>>=◌, ◌>>◌, pure, and_then, tx_aborted}
use librarius.Source.Memory.{MemorySource, memory_source}
use librarius.Vos.Object.{ObjectSize, new_size}
use librarius.Vos.Place.{Place}
use librarius.Tx
use librarius.Tx.{Transaction}
use librarius.Las.Space.{write_through}
use librarius.Engine

abbrev crc : List ℕ → ℕ
crc bytes = le_value bytes % 251 + 1

abbrev memory : MemorySource
memory = record { map = record { len = 2048; byte = λ _. 0 }; persistent = false }

abbrev root_size : ObjectSize
root_size = new_size 0 8

abbrev builder : Engine.LibrariusBuilder MemorySource
builder = record {
  sources = memory ∷ [];
  pagesize = 128;
  root =
      some (record { size = root_size; construct = λ region. write_through region (le_bytes 8 5) });
}

opened : Result (Engine.Librarius MemorySource)
opened = Engine.open_librarius crc builder

root_value : Result (ℕ × ℕ)
root_value = and_then opened λ l.
    and_then
      (Engine.run {S = MemorySource} 2
        (λ t. (do bytes ← Tx.read 10 t.root root_size; pure (le_value bytes)) t) l).0
      λ v. ok (v, 1)

bump : Action (Transaction MemorySource) ℕ
bump t =
    (do
      bytes ← Tx.read 10 t.root root_size
      region ← Tx.write 10 t.root root_size
      Tx.on_las (write_through region (le_bytes 8 (le_value bytes + 1)))
      pure (le_value bytes))
      t

bumped : Result (ℕ × ℕ)
bumped = and_then opened λ l.
    let (r, l') = Engine.run 2 bump l in
    let (r', l'') = Engine.run 2 bump l' in and_then r λ a. and_then r' λ b. ok (a, b)

twice : Result ℕ
twice = and_then opened λ l. (Engine.run_once (λ t. (do a ← bump; bump) t) l).0
