-- ===== src/Vos/Alloc.antt =====
-- src/vos.rs: `GenericAllocator`, which hands out a page piece by piece, and the allocators of
-- objects and of version slots over it. `page_alloc` is `LogicalAddressSpace::alloc`.
pub mod Rounds
pub mod Copied
pub mod Fresh
use librarius.Prelude.{
  ℕ, zero, suc, Bool, true, false, Option, none, some, ltb, le_bytes, if◌then◌else◌,
}
use librarius.Usize.{wrapping_add}
use librarius.Error.{
  allocation_too_large, ok, err, panic, out_of_fuel, Action, pure, lift, within, ◌>>=◌, ◌>>◌,
}
use librarius.Source.{Source}
use librarius.Las.Slice.{LogicalSlice, split_at}
use librarius.Las.MutRef.{LogicalMutRef, try_consume_bytes}
use librarius.Las.Space.{LogicalAddressSpace}
use librarius.Las.Space
use librarius.Vos.Pointer.{UntypedPointer, new_none, new_byte}
use librarius.Vos.Version.{Version, version_size, new_version, new_indirect}
use librarius.Vos.Object.{ObjectSize, total, object_header_size, new_header, header_bytes}

-- The address space, and the page that one allocator is handing out.
pub record Allocating (S : Type 0) : Type 0 where
  pub las : LogicalAddressSpace S
  pub active : Option LogicalMutRef

module _ {S : Type 0} where
  abbrev pub on_las : {A : Type 0} → Action (LogicalAddressSpace S) A → Action (Allocating S) A
  on_las = within {S = Allocating S} (λ s. s.las) (λ las s. record s { las = las })

module _ {S : Type 0} ⦃src : Source S⦄ where
  -- The active page, and whether it is a fresh one.
  unfoldable pub ensure_active : Bool → Action (Allocating S) (LogicalMutRef × Bool)
  ensure_active page_full s = elim s.active [
    | some mref ↦ (ok (mref, page_full), s)
    | none ↦
        (do mref ← on_las Space.alloc; (λ t. (ok (mref, true), record t { active = some mref }))) s
  ]

  -- One round's end: the bytes, or another round, or an error if the page was fresh.
  unfoldable pub consumed :
      Action (Allocating S) (LogicalSlice × LogicalSlice)
      → Bool
      → Option (LogicalSlice × LogicalSlice) × LogicalMutRef
      → Action (Allocating S) (LogicalSlice × LogicalSlice)
  consumed again page_full (some it, mref) s = (ok it, record s { active = some mref })
  consumed again true (none, mref) s = (err allocation_too_large, record s { active = some mref })
  consumed again false (none, mref) s = again (record s { active = none })

  -- The loop of `GenericAllocator::alloc`, on fuel. Only a round that leaves the flag unset is
  -- followed by another.
  unfoldable pub alloc_loop : ℕ → Bool → ℕ → Action (Allocating S) (LogicalSlice × LogicalSlice)
  unfolding ensure_active consumed
  alloc_loop zero page_full size s = (out_of_fuel, s)
  alloc_loop (suc fuel) page_full size s =
      let again = alloc_loop fuel false size in
      (do
        (mref, fresh) ← ensure_active page_full
        it ← lift (try_consume_bytes mref size size)
        consumed again fresh it)
        s

  -- `GenericAllocator::alloc`: two rounds are enough.
  unfoldable pub generic_alloc : ℕ → Action (Allocating S) (LogicalSlice × LogicalSlice)
  unfolding alloc_loop
  generic_alloc = alloc_loop 2 false

  -- `init_object`: the header at the front of the memory, and the memory behind it.
  unfoldable pub init_object :
      LogicalSlice
      → ObjectSize
      → Version
      → UntypedPointer
      → Action (LogicalAddressSpace S) LogicalSlice
  init_object memory size version other = do
    lift (if ltb memory.len object_header_size then panic else ok tt)
    let (hdr, userdata) = split_at memory object_header_size
    Space.write_through hdr (header_bytes (new_header size version other))
    pure userdata

  -- `TransactionalObjectAllocator::alloc`: the pointer to the user's part, and its memory.
  unfoldable pub alloc_object :
      ObjectSize → Version → UntypedPointer → Action (Allocating S) (UntypedPointer × LogicalSlice)
  alloc_object size version other = do
    (slice, memory) ← generic_alloc (wrapping_add (total size) object_header_size)
    userdata ← on_las (init_object memory size version other)
    pure (new_byte (split_at slice object_header_size).1.offset, userdata)

  -- `alloc_new`
  unfoldable pub alloc_new :
      ObjectSize → Version → Action (Allocating S) (UntypedPointer × LogicalSlice)
  unfolding alloc_object
  alloc_new size version = alloc_object size version new_none

  -- `TransactionalLogAllocator::new_indirect_version`: a slot that holds 0, and the version that
  -- points to it.
  unfoldable pub new_indirect_version : Action (Allocating S) Version
  new_indirect_version = do
    (slice, memory) ← generic_alloc version_size
    on_las (Space.write_through memory (le_bytes 8 new_version))
    lift (new_indirect (new_byte slice.offset))
