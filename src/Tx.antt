-- ===== src/Tx.antt =====
-- src/tx.rs: one transaction. Its state holds the shared address space and version counter beside
-- its own fields, so that a call is one action; another transaction's calls come between calls.
pub mod Writes
pub mod Validate
pub mod Commit
pub mod Conflict
pub mod Snapshot
pub mod Write
pub mod Fresh
pub mod Stocked
pub mod Race
use librarius.Prelude.{ℕ, Bool, true, false, Option, none, some, List, [], ◌∷◌, ◌++◌, if◌then◌else◌}
use librarius.Error.{
  tx_aborted, ok, err, panic, out_of_fuel, Action, pure, lift, modify, assert, within, ◌>>=◌, ◌>>◌,
}
use librarius.Source.{Source}
use librarius.Las.Slice.{LogicalAddress, LogicalSlice}
use librarius.Las.MutRef.{LogicalMutRef}
use librarius.Las.Space.{LogicalAddressSpace, write_through}
use librarius.Vos.Pointer.{UntypedPointer, address, new_byte}
use librarius.Vos.Place.{Place, cell, local, load, compare_and_swap}
use librarius.Vos.Version.{Version, newer}
use librarius.Vos.Object.{ObjectSize}
use librarius.Vos.Alloc.{Allocating, alloc_object, new_indirect_version}
use librarius.Vos.Alloc
use librarius.Vos.Reader.{read_object, read_version, version_fuel}
use librarius.Vos.Store.{Versioned, on_space, commit_version}

-- `TransactionWrite`
pub record TransactionWrite : Type 0 where
  pub dst : Place
  pub current : LogicalAddress
  pub new : UntypedPointer

pub record Transaction (S : Type 0) : Type 0 where
  pub vos : Versioned S
  pub root : Place
  pub object_active : Option LogicalMutRef
  pub log_active : Option LogicalMutRef
  -- `reader.version`
  pub snapshot : ℕ
  pub version : Option Version
  pub writeset : List TransactionWrite
  -- `TransactionRead` only wraps its pointer
  pub readset : List Place

-- `Transaction::new`: the reader's version is the counter's value at the start.
unfoldable pub new_transaction : {S : Type 0} → Versioned S → Place → Transaction S
new_transaction vos root = record {
  vos = vos;
  root = root;
  object_active = none;
  log_active = none;
  snapshot = vos.version;
  version = none;
  writeset = [];
  readset = [];
}

module _ {S : Type 0} where
  abbrev pub on_vos : {A : Type 0} → Action (Versioned S) A → Action (Transaction S) A
  on_vos = within {S = Transaction S} (λ t. t.vos) (λ vos t. record t { vos = vos })

  abbrev pub on_las : {A : Type 0} → Action (LogicalAddressSpace S) A → Action (Transaction S) A
  on_las =
      within {S = Transaction S} (λ t. t.vos.las)
        (λ las t. record t { vos = record (t.vos) { las = las } })

  -- A call of the object allocator, and one of the log allocator.
  abbrev pub on_objects : {A : Type 0} → Action (Allocating S) A → Action (Transaction S) A
  on_objects =
      within {S = Transaction S} (λ t. record { las = t.vos.las; active = t.object_active })
        (λ a t. record t { vos = record (t.vos) { las = a.las }; object_active = a.active })

  abbrev pub on_log : {A : Type 0} → Action (Allocating S) A → Action (Transaction S) A
  on_log =
      within {S = Transaction S} (λ t. record { las = t.vos.las; active = t.log_active })
        (λ a t. record t { vos = record (t.vos) { las = a.las }; log_active = a.active })

module _ {S : Type 0} ⦃src : Source S⦄ where
  -- `TransactionWrite::perform`
  unfoldable pub perform : TransactionWrite → Action (LogicalAddressSpace S) Bool
  perform w = do (swapped, _) ← compare_and_swap w.dst (new_byte w.current) w.new; pure swapped

  -- `TransactionWrite::rollback`
  unfoldable pub rollback : TransactionWrite → Action (LogicalAddressSpace S) (Unit {0})
  rollback w = do (success, _) ← compare_and_swap w.dst w.new (new_byte w.current); assert success

  -- `for w in &self.writeset`
  unfoldable pub rollback_all : List TransactionWrite → Action (LogicalAddressSpace S) (Unit {0})
  rollback_all [] = pure tt
  rollback_all (w ∷ rest) = rollback w >> rollback_all rest

  unfoldable pub abort : Action (Transaction S) (Unit {0})
  unfolding rollback_all
  abort t = on_las (rollback_all t.writeset) t

  -- `write_version`: the version slot of the transaction, made at its first write.
  unfoldable pub write_version : Action (Transaction S) Version
  write_version t = elim t.version [
    | some v ↦ (ok v, t)
    | none ↦
        (do v ← on_log new_indirect_version; modify (λ u. record u { version = some v }); pure v) t
  ]

  -- `alloc`
  unfoldable pub alloc : ObjectSize → Action (Transaction S) (UntypedPointer × LogicalSlice)
  unfolding write_version
  alloc size = do version ← write_version; on_objects (Alloc.alloc_new size version)

  -- The loop of `commit`'s validation, over the rest of the read set.
  unfoldable pub validate : Version → List Place → Action (LogicalAddressSpace S) (Unit {0})
  validate version [] = pure tt
  validate version (pointer ∷ rest) = do
    a ← read_version pointer
    other ← load (cell a)
    is_newer ← newer version_fuel other version
    if is_newer then lift (err tx_aborted) else validate version rest

  unfoldable pub commit : Action (Transaction S) (Unit {0})
  commit t = elim t.version [
    | none ↦ (ok tt, t)
    | some version ↦
        let (r, t') = on_vos (commit_version version (on_space (validate version t.readset))) t in
        elim r [
          | ok _ ↦ (ok tt, t')
          | err _ ↦ (do abort; lift (err tx_aborted)) t'
          | panic ↦ (panic, t')
          | out_of_fuel ↦ (out_of_fuel, t')
        ]
  ]

  -- The fuel bounds the copies of an object that a read goes through.
  module _ (fuel : ℕ) where
    unfoldable pub read : Place → ObjectSize → Action (Transaction S) (List ℕ)
    read pointer size t =
        (do found ← on_las (read_object fuel t.snapshot pointer size false); pure found.userdata) t

    unfoldable pub read_for_write : Place → ObjectSize → Action (Transaction S) (List ℕ)
    read_for_write pointer size t =
        (do
          modify (λ u. record u { readset = u.readset ++ pointer ∷ [] })
          found ← on_las (read_object fuel t.snapshot pointer size true)
          pure found.userdata)
          t

    -- The memory of the new copy, which the caller may then write through.
    unfoldable pub write : Place → ObjectSize → Action (Transaction S) LogicalSlice
    write pointer size t =
        (do
          read_pointer ← on_las (load pointer)
          version ← write_version
          found ← on_las (read_object fuel t.snapshot (local read_pointer) size true)
          other ← on_las (load found.place)
          (dstptr, dst) ← on_objects (alloc_object size version other)
          on_las (write_through dst found.userdata)
          let w : TransactionWrite = record {
            dst = pointer;
            current = address read_pointer;
            new = dstptr;
          }
          swapped ← on_las (perform w)
          if swapped
              then (do modify (λ u. record u { writeset = u.writeset ++ w ∷ [] }); pure dst)
              else lift (err tx_aborted))
          t
