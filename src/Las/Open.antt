-- ===== src/Las/Open.antt =====
-- src/las.rs: `LogicalAddressSpace::new`, which mounts the sources, places the new ones after the
-- old, and finds or chooses the root. `valid` is the caller's test of a page.
pub mod Root
use librarius.Prelude.{
  ℕ, Bool, true, false, Option, none, some, List, [], ◌∷◌, length, ◌++◌, not, ltb, ◌==◌,
  if◌then◌else◌,
}
use librarius.Usize.{wrapping_add, wrapping_sub}
use librarius.Error.{
  root_exists, invalid_logical_address, open_on_uninitialized, no_available_memory, Result, ok, err,
  panic, ok_or, and_then, Action, gets, modify, ◌>>=◌, ◌>>◌,
}
use librarius.Source.{Source}
use librarius.Source.Allocator.{
  SourceAllocator, new, get_meta, read_into, write_from, source_length,
}
use librarius.Las.Slice.{
  new_slice, none_slice, page_aligned, StoredLogicalSlice, block, byte, new_stored,
}
use librarius.Las.Table.{Table, insert, last_entry, count_range}
use librarius.Las.Meta.{
  Meta, root_size, root_offset, meta_size, meta_bytes, meta_from_slice, new_meta, is_valid,
}
use librarius.Las.Space.{
  LogicalAddressSpace, get_best_persistent, get_best_byte_addressable, fetch, read,
}

-- What the loop over the sources has gathered.
pub record Mounted (S : Type 0) : Type 0 where
  pub sources : Table (SourceAllocator S)
  pub unallocated : List (SourceAllocator S)
  pub root : Option StoredLogicalSlice

abbrev pub all_zero : List ℕ → Bool
all_zero [] = true
all_zero (b ∷ bs) = if b == 0 then all_zero bs else false

-- `Option::or_else`
abbrev or_else : {A : Type 0} → Option A → Option A → Option A
or_else none other = other
or_else (some a) other = some a

-- `sources.range(start..stop)`, which panics on a range that runs backwards.
unfoldable pub overlaps : {V : Type 0} → ℕ → ℕ → Table V → Result Bool
overlaps start stop t = if ltb stop start then panic else ok (not (count_range start stop t == 0))

module _ {S : Type 0} ⦃src : Source S⦄ (crc : List ℕ → ℕ) where
  -- The root that a valid metadata page names, if its bytes are not all zero.
  unfoldable pub found_root :
      Meta → SourceAllocator S → Option StoredLogicalSlice → Result (Option StoredLogicalSlice)
  found_root metap a root = if all_zero metap.root then ok root else elim root [
    | some _ ↦ err root_exists
    | none ↦
        let s = new_slice (wrapping_add metap.slice.offset root_offset) root_size in
        ok (some (new_stored s (src.is_byte_addressable a.source)))
  ]

  -- A source whose metadata page is valid takes its place in the map.
  unfoldable pub mount_valid : Meta → SourceAllocator S → Mounted S → Result (Mounted S)
  unfolding found_root overlaps
  mount_valid metap a m = and_then (found_root metap a m.root) λ root.
      let start = metap.slice.offset in
      let stop = wrapping_sub (wrapping_add start metap.slice.len) 1 in
      and_then (overlaps start stop m.sources) λ taken.
        if taken
        then err invalid_logical_address
        else ok (record m { sources = insert start a m.sources; root = root })

  -- A source with no metadata waits for its place, if the caller creates.
  unfoldable pub mount_fresh : Bool → SourceAllocator S → Mounted S → Result (Mounted S)
  mount_fresh create a m =
      if not create
      then err open_on_uninitialized
      else ok (record m { unallocated = m.unallocated ++ a ∷ [] })

  unfoldable pub mount : (List ℕ → Bool) → ℕ → Bool → S → Mounted S → Result (Mounted S)
  unfolding mount_valid mount_fresh
  mount valid pagesize create source m = and_then (new crc valid source pagesize) λ allocator.
      let (bytes, a) = read_into (get_meta allocator) pagesize allocator in
      and_then bytes λ contents.
        let metap = meta_from_slice contents in
        if ltb (length contents) meta_size
        then panic
        else if is_valid crc metap
        then mount_valid metap a m
        else mount_fresh create a m

  -- `for source in raw_sources`
  unfoldable pub mount_all : (List ℕ → Bool) → ℕ → Bool → List S → Mounted S → Result (Mounted S)
  mount_all valid pagesize create [] m = ok m
  mount_all valid pagesize create (source ∷ rest) m =
      and_then (mount valid pagesize create source m) (mount_all valid pagesize create rest)

  -- The address behind the last source.
  unfoldable pub next_offset : Table (SourceAllocator S) → Result ℕ
  next_offset t = elim (last_entry t) [
    | none ↦ ok 0
    | some (offset, a) ↦ and_then (source_length a) λ len. ok (wrapping_add offset len)
  ]

  unfoldable pub place :
      SourceAllocator S → Table (SourceAllocator S) → Result (Table (SourceAllocator S))
  unfolding next_offset
  place a t = and_then (next_offset t) λ offset. and_then (source_length a) λ len.
      let meta = new_meta crc (new_slice offset len) in
      let (done, a') = write_from (get_meta a) (meta_bytes meta) a in
      and_then done λ _. ok (insert offset a' t)

  -- `for source in unallocated`
  unfoldable pub place_all :
      List (SourceAllocator S) → Table (SourceAllocator S) → Result (Table (SourceAllocator S))
  place_all [] t = ok t
  place_all (a ∷ rest) t = and_then (place a t) (place_all rest)

  -- The root of a heap that has none yet.
  unfoldable pub choose_root : LogicalAddressSpace S → Result StoredLogicalSlice
  choose_root las =
      let best = or_else (get_best_persistent las) (get_best_byte_addressable las) in
      and_then (ok_or best no_available_memory) λ (base, a).
        let s =
          new_slice (wrapping_add (wrapping_add base (get_meta a).offset) root_offset) root_size in
        ok (new_stored s (src.is_byte_addressable a.source))

  -- A root on a block source is fetched into memory, and its page there is backed by it.
  unfoldable pub load_root : StoredLogicalSlice → Action (LogicalAddressSpace S) (Unit {0})
  load_root (byte s) = modify (λ las. record las { root = byte s; root_bytes = s })
  load_root (block s) = do
    modify (λ las. record las { root = block s })
    pagesize ← gets (λ las. las.pagesize)
    let stored = block (page_aligned s pagesize)
    root_bytes ← fetch stored
    _ ← read root_bytes
    modify (λ las. record las {
      root_bytes = new_slice (wrapping_add root_bytes.offset root_offset) s.len;
      backing = insert root_bytes.offset stored las.backing;
    })

  unfoldable pub open_space : ℕ → List S → (List ℕ → Bool) → Bool → Result (LogicalAddressSpace S)
  unfolding choose_root load_root
  open_space pagesize raw_sources valid create =
      and_then
        (mount_all valid pagesize create raw_sources
          (record { sources = []; unallocated = []; root = none }))
        λ m. and_then (place_all m.unallocated m.sources) λ sources.
          let las : LogicalAddressSpace S = record {
            sources = sources;
            pagesize = pagesize;
            root = byte none_slice;
            root_bytes = none_slice;
            backing = [];
          } in
          let chosen : Result StoredLogicalSlice = elim m.root [
            | some root ↦ ok root
            | none ↦ if create then choose_root las else panic
          ] in
          and_then chosen
            λ root. let (done, las') = load_root root las in and_then done λ _. ok las'
