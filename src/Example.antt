-- ===== src/Example.antt =====
-- examples/basic.rs: a database of two sources with a root at a type, and a transaction that reads it.
-- How the compiler lays the two types out is a parameter; the program's arguments are too.
use librarius.Prelude.{ℕ, List}
use librarius.Error.{Result, Action, and_then, pure, ◌>>=◌}
use librarius.Source.{Source}
use librarius.Utils.Views.{Layout}
use librarius.Vos.Object.{new_with_usize}
use librarius.Tx.{Transaction}
use librarius.Engine.{new_builder, source, open_librarius, run}
use librarius.Typed.{
  Persistent, PersistentPointer, new_none, create_with_typed, read_typed, root_typed,
}

pub record Data : Type 0 where
  pub value : ℕ

-- `impl Persistent for Data`; `size_of::<Data>()` is of the layout.
unfoldable pub data_persistent : Layout Data → Persistent Data
data_persistent layout = record { layout = layout; size = new_with_usize 0 layout.size_of }

pub record Root : Type 0 where
  pub «data» : PersistentPointer Data
  pub value : ℕ

unfoldable pub root_persistent : Layout Root → Persistent Root
root_persistent layout = record { layout = layout; size = new_with_usize 8 8 }

-- `Root::new`, without its message
unfoldable pub new_root : Unit {0} → Root
unfolding new_none
new_root _ = record { «data» = new_none; value = 5 }

module _ {S : Type 0} ⦃src : Source S⦄ (layout : Layout Root) where
  -- The closure of `run`.
  unfoldable pub read_root : ℕ → Action (Transaction S) ℕ
  unfolding root_typed
  read_root fuel t =
      (do
        root ←
            read_typed ⦃persistent = root_persistent layout⦄ fuel
              (root_typed ⦃persistent = root_persistent layout⦄ t)
        pure root.value)
        t

  -- `main`, from the two opened sources on; the value that it prints.
  unfoldable pub main : (List ℕ → ℕ) → ℕ → ℕ → S → S → Result ℕ
  unfolding read_root
  main crc fuel attempts memory file =
      and_then
        (open_librarius crc (
          source file (
            source memory
              (create_with_typed ⦃persistent = root_persistent layout⦄ new_root new_builder))))
        λ librarius. (run attempts (read_root fuel) librarius).0
