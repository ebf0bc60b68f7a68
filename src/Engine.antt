-- ===== src/Engine.antt =====
-- src/librarius.rs: `Librarius`, opened with its root object, and the loop that runs a transaction
-- until it commits.
pub mod Attempts
pub mod Counter
pub mod Rewrite
use librarius.Prelude.{
  ℕ, zero, suc, Bool, true, false, Option, none, some, List, [], ◌∷◌, ◌++◌, length, leb,
  if◌then◌else◌,
}
use librarius.Usize.{wrapping_add}
use librarius.Error.{
  tx_aborted, Result, ok, err, panic, out_of_fuel, Action, pure, lift, gets, assert, and_then,
  within, ◌>>=◌, ◌>>◌,
}
use librarius.Source.{Source}
use librarius.Las.Slice.{LogicalSlice}
use librarius.Las.Space.{LogicalAddressSpace}
use librarius.Las.Space
use librarius.Las.Open.{open_space}
use librarius.Vos.Pointer.{new_none, new_byte, is_some}
use librarius.Vos.Place.{Place, cell, local, load, compare_and_swap}
use librarius.Vos.Version.{new_base}
use librarius.Vos.Object.{ObjectSize, new_size, object_header_size}
use librarius.Vos.Alloc.{Allocating, on_las, init_object, alloc_new}
use librarius.Vos.Reader.{flush_object}
use librarius.Vos.Store.{Versioned, initial_version, valid_page}
use librarius.Tx.{Transaction, new_transaction, commit, abort}

pub record Librarius (S : Type 0) : Type 0 where
  pub vos : Versioned S
  pub root : Place

-- `create_with`: the size of the root, and the constructor that fills its memory.
pub record RootConstructor (S : Type 0) : Type 0 where
  pub size : ObjectSize
  pub construct : LogicalSlice → Action (LogicalAddressSpace S) (Unit {0})

pub record LibrariusBuilder (S : Type 0) : Type 0 where
  pub sources : List S
  pub pagesize : ℕ
  pub root : Option (RootConstructor S)

-- `LibrariusBuilder::new`, and its methods
unfoldable pub new_builder : {S : Type 0} → LibrariusBuilder S
new_builder = record { sources = []; pagesize = 4096; root = none }

unfoldable pub create_with :
    {S : Type 0} → RootConstructor S → LibrariusBuilder S → LibrariusBuilder S
create_with root b = record b { root = some root }

unfoldable pub source : {S : Type 0} → S → LibrariusBuilder S → LibrariusBuilder S
source s b = record b { sources = b.sources ++ s ∷ [] }

unfoldable pub with_pagesize : {S : Type 0} → ℕ → LibrariusBuilder S → LibrariusBuilder S
with_pagesize pagesize b = record b { pagesize = pagesize }

-- `flush` calls itself at most once.
abbrev pub flush_fuel : ℕ
flush_fuel = 2

-- `if let Err(err) = …`: an error is printed and passed over.
abbrev ignore_err : {S A : Type 0} → Action S A → Action S (Unit {0})
ignore_err m s =
    let (r, s') = m s in
    elim r [
      | ok _ ↦ (ok tt, s')
      | err _ ↦ (ok tt, s')
      | panic ↦ (panic, s')
      | out_of_fuel ↦ (out_of_fuel, s')
    ]

module _ {S : Type 0} ⦃src : Source S⦄ where
  -- `root_read`: where the pointer to the root object stands.
  unfoldable pub root_read : Action (LogicalAddressSpace S) Place
  root_read las =
      (do
        bytes ← Space.read las.root_bytes
        assert (leb object_header_size (length bytes))
        pure (cell (wrapping_add las.root_bytes.offset object_header_size)))
        las

  -- The part of `root_alloc` behind its early return.
  unfoldable pub root_create : RootConstructor S → Action (Allocating S) (Unit {0})
  root_create root = do
    location ← gets (λ s. s.las.root_bytes)
    let ptr_owning = local (new_byte (wrapping_add location.offset object_header_size))
    memory ← on_las (Space.write location)
    userdata ← on_las (init_object memory (new_size 8 0) new_base new_none)
    (object, content) ← alloc_new root.size new_base
    on_las (root.construct content)
    (result, _) ← on_las (compare_and_swap (cell userdata.offset) new_none object)
    assert result
    on_las (ignore_err (flush_object flush_fuel ptr_owning))

  -- `root_alloc`, with an object allocator of its own.
  unfoldable pub root_alloc : RootConstructor S → Action (LogicalAddressSpace S) Place
  unfolding root_read root_create
  root_alloc root = do
    place ← root_read
    p ← load place
    if is_some p then pure place else (do
      within {T = Allocating S} (λ las. record { las = las; active = none }) (λ s las. s.las)
          (root_create root)
      root_read)

  -- `Librarius::new`
  unfoldable pub open_librarius : (List ℕ → ℕ) → LibrariusBuilder S → Result (Librarius S)
  open_librarius crc b =
      let create : Bool = elim b.root [ none ↦ false | some _ ↦ true ] in
      and_then (open_space crc b.pagesize b.sources valid_page create) λ las.
        let rooted : Result Place × LogicalAddressSpace S = elim b.root [
          | some root ↦ root_alloc root las
          | none ↦ root_read las
        ] in
        and_then rooted.0 λ root.
          ok (record { vos = record { las = rooted.1; version = initial_version }; root = root })

  -- How a transaction's closure ended decides between commit and abort.
  unfoldable pub finish : {R : Type 0} → Result R → Action (Transaction S) R
  finish (ok r) = commit >> pure r
  finish (err e) = abort >> lift (err e)
  finish panic = lift panic
  finish out_of_fuel = lift out_of_fuel

  unfoldable pub run_once : {R : Type 0} → Action (Transaction S) R → Action (Librarius S) R
  unfolding finish
  run_once func l =
      let (result, t) = func (new_transaction l.vos l.root) in
      let (r, t') = finish result t in (r, record l { vos = t'.vos })

  -- `run`, on fuel for the attempts. Only an aborted attempt is followed by another.
  unfoldable pub run : {R : Type 0} → ℕ → Action (Transaction S) R → Action (Librarius S) R
  run zero transaction l = (out_of_fuel, l)
  run (suc attempts) transaction l =
      let (r, l') = run_once transaction l in
      let again = run attempts transaction l' in
      elim r [
        | ok result ↦ (ok result, l')
        | err tx_aborted ↦ again
        | err error ↦ (err error, l')
        | panic ↦ (panic, l')
        | out_of_fuel ↦ (out_of_fuel, l')
      ]
