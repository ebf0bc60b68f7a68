-- ===== src/Las/Space/Translate.antt =====
-- What `read`, `write` and a write through a slice do to the bytes of the source that the slice
-- falls in.
use librarius.Prelude.{
  ℕ, ◌+◌, ◌-◌, ◌^◌, ◌≤◌, ◌<◌, ◌≡◌, ap, ◌∙◌, arith, true, some, List, length, take, drop, slice,
  length-slice, take-slice, drop-slice, eq→==, store-splice, store,
}
use librarius.Usize.{word}
use librarius.Error.{ok}
use librarius.Source.{Source, new_page}
use librarius.Source.Contract.{Addressable}
use librarius.Source.Allocator.{SourceAllocator, get_bytes, get_bytes_mut}
use librarius.Las.Slice.{LogicalSlice}
use librarius.Las.Table.{floor, lookup, replace}
use librarius.Las.Table.Laws.{Ordered, floor-lookup}
use librarius.Las.Space.{LogicalAddressSpace, index, splice, locate, read, write, write_through}
use librarius.Las.Space.Locate.{InPage, page_start, page_rest, start_rest, locate_lem}

-- A part of a slice, as `&bytes[start..start + len]` takes it.
index-slice :
    (m : ℕ → ℕ) (o n start len : ℕ)
    → start + len ≤ n
    → index (slice m o n) start (start + len) ≡ ok (slice m (o + start) len)
unfolding index
index-slice m o n start len h =
    let width : start + len - start ≡ len = omega arith in
    let part : take (start + len - start) (drop start (slice m o n)) ≡ slice m (o + start) len =
      ap (λ (t : ℕ). take t (drop start (slice m o n))) width
      ∙ ap (take len) (drop-slice m o start n (omega arith))
      ∙ take-slice m (o + start) len (n - start) (omega arith) in
    ground (arith, length-slice m o n, part)

module _ {S : Type 0} ⦃src : Source S⦄ (arr : Addressable S) where
  -- The slice falls in one page of a byte-addressable source of the space.
  pub record Resolves (las : LogicalAddressSpace S) (s : LogicalSlice) (k base : ℕ)
      (a : SourceAllocator S) : Type 0 where
    pub found : floor s.offset las.sources ≡ some (base, a)
    pub ordered : Ordered las.sources
    pub paged : las.pagesize ≡ 2 ^ k
    pub byte_addressable : src.is_byte_addressable a.source ≡ true
    pub sized : arr.size a.source < word
    pub placed : InPage k base s
    pub inside : page_start k base s + 2 ^ k ≤ arr.size a.source

  module _ (las : LogicalAddressSpace S) (s : LogicalSlice) (k base : ℕ) (a : SourceAllocator S)
      (r : Resolves las s k base a) where
    located :
        locate s las.pagesize base
        ≡ ok
            (new_page (page_start k base s) (2 ^ k), page_rest k base s, page_rest k base s + s.len)
    located = ap (λ (t : ℕ). locate s t base) r.paged ∙ locate_lem k base s r.placed

    got_bytes :
        get_bytes (new_page (page_start k base s) (2 ^ k)) a
        ≡ ok (some (slice (arr.content a.source) (page_start k base s) (2 ^ k)))
    unfolding get_bytes
    got_bytes = rw (r.byte_addressable, arr.at_lem _ _ a.source r.byte_addressable r.sized r.inside)

    listed : lookup base las.sources ≡ some a
    listed = (floor-lookup s.offset las.sources r.ordered r.found).0

    got_bytes_mut :
        get_bytes_mut (new_page (page_start k base s) (2 ^ k)) a
        ≡ ok (
            some (
              slice (arr.content a.source) (page_start k base s) (2 ^ k),
              λ bs. record a { source = arr.put (page_start k base s) bs a.source },
            ))
    unfolding get_bytes_mut
    got_bytes_mut =
        rw (r.byte_addressable, arr.at_mut_lem _ _ a.source r.byte_addressable r.sized r.inside)

    -- `read` gives the bytes at the slice's place in the source, and changes nothing.
    pub read_lem : read s las ≡ (ok (slice (arr.content a.source) (s.offset - base) s.len), las)
    unfolding read
    read_lem = ground (
      arith,
      r.found,
      r.byte_addressable,
      located,
      got_bytes,
      index-slice (arr.content a.source) (page_start k base s) (2 ^ k) (page_rest k base s) s.len
          r.placed.in_page,
      start_rest k base s r.placed,
    )

    -- `write` gives out the slice's memory, and changes nothing yet.
    pub write_lem : write s las ≡ (ok s, las)
    unfolding write
    write_lem = ground (
      arith,
      r.found,
      r.byte_addressable,
      located,
      got_bytes_mut,
      index-slice (arr.content a.source) (page_start k base s) (2 ^ k) (page_rest k base s) s.len
          r.placed.in_page,
      start_rest k base s r.placed,
      r.placed,
    )

    module _ (new : List ℕ) (same_length : length new ≡ s.len) where
      -- The allocator with the new bytes in its source.
      abbrev pub written : SourceAllocator S
      written = record a {
        source =
            arr.put (page_start k base s)
              (splice (slice (arr.content a.source) (page_start k base s) (2 ^ k))
                (page_rest k base s) new)
              a.source;
      }

      pub write_through_lem :
          write_through s new las
          ≡ (ok tt, record las { sources = replace base written las.sources })
      unfolding write_through
      write_through_lem = ground (
        arith,
        r.found,
        located,
        got_bytes_mut,
        listed,
        r.placed,
        same_length,
        eq→== (length new) s.len same_length,
      )

      pub content-written :
          arr.content (written.source) ≡ store (arr.content a.source) (s.offset - base) new
      unfolding splice
      content-written =
          arr.content-put _ _ a.source
          ∙ store-splice (arr.content a.source) (page_start k base s) (2 ^ k) (page_rest k base s)
              new (omega (arith, r.placed.in_page))
          ∙ ap (λ (t : ℕ). store (arr.content a.source) t new) (start_rest k base s r.placed)
