-- ===== src/Source/Allocator.antt =====
-- src/source/mod.rs: `SourceAllocator`, the free list of a source's pages. Its locks are taken for
-- the length of one call each, so a call is one step on the whole value.
pub mod Ends
pub mod Freelist
pub mod Pages
pub mod Scan
pub mod Start
use librarius.Prelude.{
  ℕ, zero, suc, ◌+◌, ◌/◌, Bool, not, Option, none, some, List, [], ◌∷◌, ◌++◌, length, leb, ◌==◌,
  if◌then◌else◌,
}
use librarius.Usize.{wrapping_add, wrapping_sub, wrapping_mul}
use librarius.Utils.{align_up, align_down}
use librarius.Error.{
  wrong_pagesize, no_available_memory, Result, ok, err, panic, out_of_fuel, Action, pure, lift,
  gets, modify, assert, and_then, within, ◌>>=◌, ◌>>◌,
}
use librarius.Source.{Source, Page, new_page, split}
use librarius.Source.Header.{header_size, header_bytes, header_from_slice, new_header, is_valid}

pub record SourceAllocator (S : Type 0) : Type 0 where
  pub source : S
  pub freelist : List Page
  pub pagesize : ℕ

abbrev pub on_source : {S A : Type 0} → Action S A → Action (SourceAllocator S) A
on_source = within (λ a. a.source) (λ s a. record a { source = s })

-- `get_meta`
unfoldable pub get_meta : {S : Type 0} → SourceAllocator S → Page
get_meta a = new_page a.pagesize a.pagesize

-- `free_page`
unfoldable pub free_page : {S : Type 0} → Page → SourceAllocator S → SourceAllocator S
free_page page a = record a { freelist = a.freelist ++ page ∷ [] }

-- What is left of a page that was split goes back to the front.
abbrev put_back : Page → List Page → List Page
put_back page freelist = if page.len == 0 then freelist else page ∷ freelist

allocated :
    {S : Type 0}
    → SourceAllocator S
    → List Page
    → Option Page × Page
    → Result Page × SourceAllocator S
allocated a rest (none, page) = (err no_available_memory, record a { freelist = rest })
allocated a rest (some cut, page) = (ok cut, record a { freelist = put_back page rest })

allocate_from : {S : Type 0} → SourceAllocator S → List Page → Result Page × SourceAllocator S
allocate_from a [] = (err no_available_memory, a)
allocate_from a (page ∷ rest) = allocated a rest (split page a.pagesize)

-- `allocate_page`. A front page that is too short is lost to the list, as in the source.
unfoldable pub allocate_page : {S : Type 0} → Action (SourceAllocator S) Page
unfolding allocate_from allocated split
allocate_page a = allocate_from a a.freelist

module _ {S : Type 0} ⦃src : Source S⦄ where
  -- `SourceAllocator::length`, with its `unwrap`
  unfoldable pub source_length : SourceAllocator S → Result ℕ
  source_length a = elim (src.length a.source) [
    | ok len ↦ ok (align_down len a.pagesize)
    | err e ↦ panic
    | panic ↦ panic
    | out_of_fuel ↦ out_of_fuel
  ]

  unfoldable pub get_bytes : Page → SourceAllocator S → Result (Option (List ℕ))
  get_bytes page a =
      if src.is_byte_addressable a.source
      then and_then (src.at page.offset page.len a.source) (λ bytes. ok (some bytes))
      else ok none

  -- The slice, as its contents and the allocator after new contents are written.
  unfoldable pub get_bytes_mut :
      Page → SourceAllocator S → Result (Option (List ℕ × (List ℕ → SourceAllocator S)))
  get_bytes_mut page a =
      if src.is_byte_addressable a.source
      then and_then (src.at_mut page.offset page.len a.source)
          (λ r. ok (some (r.0, λ bytes. record a { source = r.1 bytes })))
      else ok none

  -- `read_into`, with the length of the buffer. Its argument `offset` is not used.
  unfoldable pub read_into : Page → ℕ → Action (SourceAllocator S) (List ℕ)
  read_into page len = do assert (leb len page.len); on_source (src.read page.offset len)

  unfoldable pub write_from : Page → List ℕ → Action (SourceAllocator S) (Unit {0})
  write_from page bytes = do
    assert (leb (length bytes) page.len)
    on_source (src.write page.offset bytes)
    on_source src.flush

  module _ (crc : List ℕ → ℕ) where
    unfoldable pub create : Action (SourceAllocator S) (Unit {0})
    create = do
      pagesize ← gets (λ a. a.pagesize)
      on_source (src.write 0 (header_bytes (new_header crc pagesize)))
      on_source src.flush

    -- A source with no header gets one; one of another page size is refused. A page that is too
    -- short for the header is a panic.
    unfoldable pub check_header : List ℕ → Action (SourceAllocator S) (Unit {0})
    check_header bytes = do
      assert (leb header_size (length bytes))
      pagesize ← gets (λ a. a.pagesize)
      let hdrp = header_from_slice bytes
      if not (is_valid crc hdrp)
          then create
          else lift (
              if hdrp.header.pagesize == pagesize
              then ok tt
              else err (wrong_pagesize hdrp.header.pagesize pagesize))

    module _ (valid : List ℕ → Bool) where
      -- `for n in 0..npages`, with the rounds that are left
      unfoldable pub scan : ℕ → ℕ → ℕ → Action (SourceAllocator S) (Unit {0})
      scan zero base_offset n = pure tt
      scan (suc left) base_offset n = do
        pagesize ← gets (λ a. a.pagesize)
        let offset = wrapping_add base_offset (wrapping_mul n pagesize)
        bytes ← on_source (src.read offset pagesize)
        modify (λ a. if not (valid bytes) then free_page (new_page offset pagesize) a else a)
        scan left base_offset (n + 1)

      unfoldable pub initialize : Action (SourceAllocator S) (Unit {0})
      initialize = do
        pagesize ← gets (λ a. a.pagesize)
        bytes ← on_source (src.read 0 pagesize)
        check_header bytes
        let base_offset = wrapping_add (align_up header_size pagesize) pagesize
        length ← (λ a. (source_length a, a))
        let base_size = wrapping_sub length base_offset
        assert (not (pagesize == 0))
        scan (base_size / pagesize) base_offset 0

      -- `SourceAllocator::new`
      unfoldable pub new : S → ℕ → Result (SourceAllocator S)
      unfolding initialize
      new source pagesize =
          let (r, a) =
            initialize (record { source = source; freelist = []; pagesize = pagesize }) in
          and_then r (λ _. ok a)
