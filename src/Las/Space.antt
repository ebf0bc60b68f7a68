-- ===== src/Las/Space.antt =====
-- src/las.rs: `LogicalAddressSpace` and its operations once it is open. An `Arc<SourceAllocator>`
-- is named by its base address, which no operation changes.
pub mod Ends
pub mod Rounds
pub mod Region
pub mod Fresh
pub mod Stock
pub mod WroteIn
pub mod Locate
pub mod Memory
pub mod Translate
use librarius.Prelude.{
  ℕ, zero, suc, ◌+◌, ◌-◌, Bool, Option, none, some, List, ◌++◌, ◌&&◌, length, take, drop, leb, ◌==◌,
  if◌then◌else◌,
}
use librarius.Usize.{wrapping_add}
use librarius.Error.{
  no_available_memory, invalid_logical_address, Result, ok, err, panic, out_of_fuel, ok_or, Action,
  pure, lift, gets, modify, assert, and_then, ◌>>=◌, ◌>>◌,
}
use librarius.Source.{Source, Page}
use librarius.Source.Allocator.{
  SourceAllocator, allocate_page, get_bytes, get_bytes_mut, read_into, write_from,
}
use librarius.Las.Slice.{
  LogicalAddress, LogicalSlice, new_slice, from_page, page_offset, to_page, page_aligned,
  StoredLogicalSlice, byte, new_stored, raw, same_kind,
}
use librarius.Las.Table.{Table, insert, lookup, replace, floor, find}
use librarius.Las.MutRef.{LogicalMutRef}

pub record LogicalAddressSpace (S : Type 0) : Type 0 where
  pub sources : Table (SourceAllocator S)
  pub pagesize : ℕ
  pub root : StoredLogicalSlice
  pub root_bytes : LogicalSlice
  pub backing : Table StoredLogicalSlice

-- `Option::unwrap`
abbrev pub unwrap : {A : Type 0} → Option A → Result A
unwrap none = panic
unwrap (some a) = ok a

-- `&bytes[start..stop]`
unfoldable pub index : List ℕ → ℕ → ℕ → Result (List ℕ)
index bytes start stop =
    if leb start stop && leb stop (length bytes)
    then ok (take (stop - start) (drop start bytes))
    else panic

-- The bytes with those from `start` on replaced.
unfoldable pub splice : List ℕ → ℕ → List ℕ → List ℕ
splice bytes start new = take start bytes ++ (new ++ drop (start + length new) bytes)

-- The page of a slice, and where the slice starts and stops in it.
unfoldable pub locate : LogicalSlice → ℕ → ℕ → Result (Page × ℕ × ℕ)
locate s pagesize base =
    and_then (to_page s pagesize base)
      λ page. let start = page_offset s page base in ok (page, start, wrapping_add start s.len)

module _ {S : Type 0} ⦃src : Source S⦄ where
  -- A call on the allocator of a base address.
  abbrev pub on_allocator :
      {A : Type 0} → ℕ → Action (SourceAllocator S) A → Action (LogicalAddressSpace S) A
  on_allocator base m las = elim (lookup base las.sources) [
    | none ↦ (panic, las)
    | some a ↦ let (r, a') = m a in (r, record las { sources = replace base a' las.sources })
  ]

  -- The base address, and the allocator to look at, of the source that holds the slice.
  abbrev pub with_source :
      {A : Type 0}
      → LogicalSlice
      → (ℕ → SourceAllocator S → Action (LogicalAddressSpace S) A)
      → Action (LogicalAddressSpace S) A
  with_source s f las = elim (floor s.offset las.sources) [
    | none ↦ (err invalid_logical_address, las)
    | some (base, a) ↦ f base a las
  ]

  unfoldable pub get_best_source :
      (SourceAllocator S → Bool) → LogicalAddressSpace S → Option (ℕ × SourceAllocator S)
  get_best_source f las = find f las.sources

  unfoldable pub get_best_persistent : LogicalAddressSpace S → Option (ℕ × SourceAllocator S)
  unfolding get_best_source
  get_best_persistent = get_best_source (λ a. src.is_persistent a.source)

  unfoldable pub get_best_byte_addressable : LogicalAddressSpace S → Option (ℕ × SourceAllocator S)
  unfolding get_best_source
  get_best_byte_addressable = get_best_source (λ a. src.is_byte_addressable a.source)

  unfoldable pub get_backing :
      LogicalSlice → Action (LogicalAddressSpace S) (Option StoredLogicalSlice)
  get_backing s las =
      let aligned = page_aligned s las.pagesize in
      (with_source aligned λ base a. do
        page ← lift (to_page aligned las.pagesize base)
        let offset = page_offset s page base
        if src.is_persistent a.source
            then pure (some (byte s))
            else gets (λ l. elim (lookup aligned.offset l.backing) [
              | none ↦ none
              | some b ↦ some (same_kind b (new_slice (wrapping_add (raw b).offset offset) s.len))
            ]))
        las

  unfoldable pub allocate_backing : LogicalAddress → Action (LogicalAddressSpace S) (Unit {0})
  allocate_backing key las = elim (lookup key las.backing) [
    | some _ ↦ (ok tt, las)
    | none ↦
        (do
          (base, a) ← lift (ok_or (get_best_persistent las) no_available_memory)
          page ← on_allocator base allocate_page
          modify (λ l. record l {
            backing =
                insert key (new_stored (from_page page base) (src.is_byte_addressable a.source))
                  l.backing;
          }))
          las
  ]

  -- `alloc`: a fresh page. The page's header has no bytes.
  unfoldable pub alloc : Action (LogicalAddressSpace S) LogicalMutRef
  alloc = do
    (base, a) ← (λ las. (ok_or (get_best_byte_addressable las) no_available_memory, las))
    page ← on_allocator base allocate_page
    bytes ← on_allocator base (λ b. (get_bytes_mut page b, b))
    contents ← lift (unwrap bytes)
    let slice = from_page page base
    let page_data_offset = page_offset slice page base
    assert (leb page_data_offset (length contents.0))
    pure (record {
      region = new_slice slice.offset (length contents.0 - page_data_offset);
      slice = slice;
    })

  unfoldable pub read : LogicalSlice → Action (LogicalAddressSpace S) (List ℕ)
  unfolding locate
  read s las =
      (with_source s λ base a. do
        assert (src.is_byte_addressable a.source)
        (page, start, stop) ← lift (locate s las.pagesize base)
        bytes ← lift (and_then (get_bytes page a) unwrap)
        lift (index bytes start stop))
        las

  -- `write`: the memory that the caller may then write through, as the slice of the addresses of
  -- the bytes from `start` to `stop` of the page.
  unfoldable pub write : LogicalSlice → Action (LogicalAddressSpace S) LogicalSlice
  unfolding locate
  write s las =
      (with_source s λ base a. do
        assert (src.is_byte_addressable a.source)
        (page, start, stop) ← lift (locate s las.pagesize base)
        bytes ← lift (and_then (get_bytes_mut page a) unwrap)
        _ ← lift (index bytes.0 start stop)
        let first = wrapping_add base page.offset
        pure (new_slice (wrapping_add first start) (stop - start)))
        las

  -- `region.copy_from_slice(bytes)` on a slice that `write` or `alloc` gave out; it panics at
  -- another length, and stores nothing at length 0.
  unfoldable pub write_through : LogicalSlice → List ℕ → Action (LogicalAddressSpace S) (Unit {0})
  unfolding locate
  write_through s new las =
      (do
        assert (length new == s.len)
        if s.len == 0
            then pure tt
            else with_source s (λ base a. do
              (page, start, stop) ← lift (locate s las.pagesize base)
              bytes ← lift (and_then (get_bytes_mut page a) unwrap)
              on_allocator base (λ b. (ok tt, bytes.1 (splice bytes.0 start new)))))
        las

  unfoldable pub fetch : StoredLogicalSlice → Action (LogicalAddressSpace S) LogicalSlice
  fetch stored = do
    let s = raw stored
    pagesize ← gets (λ las. las.pagesize)
    (bytes, offset) ← with_source s (λ base a. do
      page ← lift (to_page s pagesize base)
      bytes ← on_allocator base (read_into page pagesize)
      pure (bytes, page_offset s page base))
    page ← alloc
    write_through page.region bytes
    pure (new_slice (wrapping_add page.slice.offset offset) s.len)

  -- `flush`, on fuel for its call of itself once there is a backing.
  unfoldable pub flush : ℕ → LogicalSlice → Action (LogicalAddressSpace S) StoredLogicalSlice
  flush zero s las = (out_of_fuel, las)
  flush (suc fuel) s las =
      let again = flush fuel s in
      let aligned = page_aligned s las.pagesize in
      (with_source aligned λ base a. do
        assert (src.is_byte_addressable a.source)
        page ← lift (to_page aligned las.pagesize base)
        bytes ← lift (and_then (get_bytes page a) unwrap)
        let offset = page_offset s page base
        if src.is_persistent a.source
            then (do lift (src.flush_slice bytes a.source); pure (byte s))
            else (λ l. elim (lookup aligned.offset l.backing) [
              | none ↦ (do allocate_backing aligned.offset; again) l
              | some b ↦
                  (do
                    with_source (raw b) (λ dst_base dst. do
                      assert (src.is_persistent dst.source)
                      dst_page ← lift (to_page (raw b) las.pagesize dst_base)
                      on_allocator dst_base (write_from dst_page bytes))
                    pure (same_kind b (new_slice (wrapping_add (raw b).offset offset) s.len)))
                    l
            ]))
        las
