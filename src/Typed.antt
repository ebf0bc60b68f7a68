-- ===== src/Typed.antt =====
-- src/typed.rs: the calls of a builder and of a transaction at a type that has a place in the
-- database, over the untyped calls.
pub mod Update
pub mod Create
pub mod Session
use librarius.Prelude.{ℕ, refl, List, le_bytes}
use librarius.Error.{Result, Action, pure, lift, ◌>>=◌, ◌>>◌}
use librarius.Source.{Source}
use librarius.Las.Space.{LogicalAddressSpace}
use librarius.Utils.Views.{
  Layout, MutView, any_as_slice, any_from_slice, any_from_slice_mut, assign,
}
use librarius.Vos.Pointer.{UntypedPointer, pointer_size}
use librarius.Vos.Pointer
use librarius.Vos.Place.{Place}
use librarius.Vos.Object.{ObjectSize, new_with_usize}
use librarius.Tx.{Transaction, on_las, alloc, read, write}
use librarius.Engine.{LibrariusBuilder, create_with}

-- The trait, with the layout that the compiler gives the type.
pub record Persistent (T : Type 0) : Type 0 where
  pub layout : Layout T
  pub size : ObjectSize

-- A persistent type brings its layout along.
instance abbrev pub layout_of : {T : Type 0} ⦃persistent : Persistent T⦄ → Layout T
layout_of ⦃persistent⦄ = persistent.layout

-- `impl Persistent for UntypedPointer`
unfoldable pub pointer_persistent : Layout UntypedPointer → Persistent UntypedPointer
pointer_persistent layout = record { layout = layout; size = new_with_usize pointer_size 0 }

pub record PersistentPointer (T : Type 0) : Type 0 where
  pub raw : UntypedPointer

-- `&PersistentPointer<T>`, by where the pointer stands.
pub record PointerRef (T : Type 0) : Type 0 where
  pub place : Place

module _ {T : Type 0} where
  unfoldable pub from_raw : UntypedPointer → PersistentPointer T
  from_raw raw = record { raw = raw }

  unfoldable pub from_raw_ref : Place → PointerRef T
  from_raw_ref raw = record { place = raw }

  unfoldable pub as_raw : PointerRef T → Place
  as_raw pointer = pointer.place

  unfoldable pub new_none : PersistentPointer T
  new_none = record { raw = Pointer.new_none }

module _ {T S : Type 0} ⦃persistent : Persistent T⦄ ⦃src : Source S⦄ where
  -- `create_with_typed`; the closure builds a value.
  unfoldable pub create_with_typed : (Unit {0} → T) → LibrariusBuilder S → LibrariusBuilder S
  create_with_typed tc b =
      create_with
        (record {
          size = persistent.size;
          construct = λ memory. assign (any_from_slice_mut memory) (tc tt);
        })
        b

  unfoldable pub write_typed : ℕ → PointerRef T → Action (Transaction S) (MutView T)
  unfolding as_raw
  write_typed fuel pointer = do
    memory ← write fuel (as_raw pointer) persistent.size
    pure (any_from_slice_mut memory)

  unfoldable pub read_typed : ℕ → PointerRef T → Action (Transaction S) T
  unfolding as_raw
  read_typed fuel pointer = do
    bytes ← read fuel (as_raw pointer) persistent.size
    lift (any_from_slice bytes)

  unfoldable pub root_typed : Transaction S → PointerRef T
  unfolding from_raw_ref
  root_typed t = from_raw_ref t.root

  unfoldable pub alloc_typed : (Unit {0} → T) → Action (Transaction S) (PersistentPointer T)
  unfolding from_raw
  alloc_typed f = do
    (raw, memory) ← alloc persistent.size
    on_las (assign (any_from_slice_mut memory) (f tt))
    pure (from_raw raw)

module _ {T : Type 0} ⦃persistent : Persistent T⦄ where
  unfoldable pub deserialize : List ℕ → Result T
  deserialize bytes = any_from_slice bytes

  unfoldable pub serialize : T → List ℕ
  serialize x = any_as_slice x
