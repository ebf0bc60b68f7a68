-- ===== src/Las/Space/Memory.antt =====
-- The logical address space as a memory: what a write through one slice means for the reads of that
-- slice and of every other.
use native.Mathlib.Decide.{ℕ_discrete}
use librarius.Prelude.{
  ℕ, ◌+◌, ◌-◌, ◌^◌, ◌≤◌, ◌≡◌, ◌≢◌, refl, sym, ap, ap₂, subst, ◌∙◌, arith, some, List, length, slice,
  slice-store_self, slice-store_disjoint, ◌⊎◌, inl, inr, eq→==, ne→==, store, if◌then◌else◌, ◌<◌,
}
use librarius.Usize.{word}
use librarius.Error.{Result, ok}
use librarius.Source.{Source}
use librarius.Source.Contract.{Addressable}
use librarius.Source.Allocator.{SourceAllocator}
use librarius.Las.Slice.{LogicalSlice}
use librarius.Las.Table.{replace}
use librarius.Las.Table.Laws.{replace-Ordered, floor-lookup, floor-replace}
use librarius.Las.Space.{LogicalAddressSpace, read, write_through}
use librarius.Las.Space.Locate.{page_start}
use librarius.Las.Space.Translate.{Resolves, read_lem, written, write_through_lem, content-written}

-- Two slices that share no address.
abbrev pub Disjoint : LogicalSlice → LogicalSlice → Type 0
Disjoint s t = (s.offset + s.len ≤ t.offset) ⊎ (t.offset + t.len ≤ s.offset)

module _ {S : Type 0} ⦃src : Source S⦄ (arr : Addressable S) where
  -- A slice of a space resolves, and its bytes are these.
  pub record Holds (las : LogicalAddressSpace S) (t : LogicalSlice) (k base : ℕ) (bytes : List ℕ)
      : Type 0 where
    pub allocator : SourceAllocator S
    pub resolves : Resolves arr las t k base allocator
    pub bytes_there : slice (arr.content allocator.source) (t.offset - base) t.len ≡ bytes

  pub read-Holds :
      (las : LogicalAddressSpace S) (t : LogicalSlice) (k base : ℕ) (bytes : List ℕ)
      → Holds las t k base bytes
      → read t las ≡ (ok bytes, las)
  read-Holds las t k base bytes h =
      read_lem arr las t k base h.allocator h.resolves ∙ ap (λ bs. (ok bs, las)) h.bytes_there

module _ {S : Type 0} ⦃src : Source S⦄ (arr : Addressable S) (las : LogicalAddressSpace S) where
  module _ (s : LogicalSlice) (k base : ℕ) (a : SourceAllocator S) (r : Resolves arr las s k base a)
      (new : List ℕ) (same_length : length new ≡ s.len) where
    -- The space after the write.
    abbrev pub after : LogicalAddressSpace S
    after = record las {
      sources = replace base (written arr las s k base a r new same_length) las.sources;
    }

    -- A slice of the same source resolves to the source as it now is.
    pub Resolves-same :
        (t : LogicalSlice)
        → Resolves arr las t k base a
        → Resolves arr after t k base (written arr las s k base a r new same_length)
    Resolves-same t q = record {
      found =
          floor-replace t.offset base _ las.sources q.ordered q.found
          ∙ ap (λ b. some (base, if b then written arr las s k base a r new same_length else a))
              (eq→== base base refl);
      ordered = replace-Ordered base _ las.sources q.ordered;
      paged = q.paged;
      byte_addressable = arr.is_byte_addressable-put _ _ a.source ∙ q.byte_addressable;
      sized = subst (λ n. n < word) (sym (arr.size-put _ _ a.source)) q.sized;
      placed = q.placed;
      inside =
          subst (λ n. page_start k base t + 2 ^ k ≤ n) (sym (arr.size-put _ _ a.source)) q.inside;
    }

    -- A slice of another source resolves as before.
    pub Resolves-other :
        (t : LogicalSlice) (base' : ℕ) (a' : SourceAllocator S)
        → base' ≢ base
        → Resolves arr las t k base' a'
        → Resolves arr after t k base' a'
    Resolves-other t base' a' ne q = record {
      found =
          floor-replace t.offset base _ las.sources q.ordered q.found
          ∙ ap (λ b. some (base', if b then written arr las s k base a r new same_length else a'))
              (ne→== base' base ne);
      ordered = replace-Ordered base _ las.sources q.ordered;
      paged = q.paged;
      byte_addressable = q.byte_addressable;
      sized = q.sized;
      placed = q.placed;
      inside = q.inside;
    }

    pub after_self : Holds arr after s k base new
    after_self = record {
      allocator = written arr las s k base a r new same_length;
      resolves = Resolves-same s r;
      bytes_there =
          ap (λ m. slice m (s.offset - base) s.len)
            (content-written arr las s k base a r new same_length)
          ∙ ap (slice (store (arr.content a.source) (s.offset - base) new) (s.offset - base))
              (sym same_length)
          ∙ slice-store_self (arr.content a.source) (s.offset - base) new;
    }

    after_apart :
        (t : LogicalSlice)
        → Disjoint s t
        → Resolves arr las t k base a
        → Holds arr after t k base (slice (arr.content a.source) (t.offset - base) t.len)
    after_apart t apart q = record {
      allocator = written arr las s k base a r new same_length;
      resolves = Resolves-same t q;
      bytes_there =
          ap (λ m. slice m (t.offset - base) t.len)
            (content-written arr las s k base a r new same_length)
          ∙ slice-store_disjoint (arr.content a.source) (s.offset - base) new (t.offset - base)
              t.len
              (elim apart [
                | inl p ↦ inr (omega (arith, r.placed.above, q.placed.above, same_length))
                | inr p ↦ inl (omega (arith, r.placed.above, q.placed.above))
              ]);
    }

    after-Disjoint :
        (t : LogicalSlice) (base' : ℕ) (a' : SourceAllocator S)
        → Disjoint s t
        → Resolves arr las t k base' a'
        → Holds arr after t k base' (slice (arr.content a'.source) (t.offset - base') t.len)
    after-Disjoint t base' a' apart q = elim (ℕ_discrete base' base) [
      | yes e ↦
          let here = (floor-lookup s.offset las.sources r.ordered r.found).0 in
          let there = (floor-lookup t.offset las.sources q.ordered q.found).0 in
          let same : a ≡ a' = cc (here, there, e) in
          subst
            (λ (x : ℕ × SourceAllocator S).
              Resolves arr las t k x.0 x.1
              → Holds arr after t k x.0 (slice (arr.content (x.1.source)) (t.offset - x.0) t.len))
            (ap₂ (λ (b : ℕ) (x : SourceAllocator S). (b, x)) (sym e) same) (after_apart t apart) q
      | no ne ↦ record {
        allocator = a';
        resolves = Resolves-other t base' a' ne q;
        bytes_there = refl;
      }
    ]

    pub after-Holds :
        (t : LogicalSlice) (base' : ℕ) (bytes : List ℕ)
        → Disjoint s t
        → Holds arr las t k base' bytes
        → Holds arr after t k base' bytes
    after-Holds t base' bytes apart h =
        subst (Holds arr after t k base') h.bytes_there
          (after-Disjoint t base' h.allocator apart h.resolves)

    pub write_through-after : write_through s new las ≡ (ok tt, after)
    write_through-after = write_through_lem arr las s k base a r new same_length

  -- On a slice that is not empty and lies inside one page, of a size 2^k, of a byte-addressable
  -- source, a write of a buffer of the slice's length succeeds and a read of the slice then gives
  -- the buffer.
  pub write_through-read :
      (s : LogicalSlice) (k base : ℕ) (a : SourceAllocator S) (new : List ℕ)
      → Resolves arr las s k base a
      → length new ≡ s.len
      → let (r, las') = write_through s new las in (r ≡ ok tt) × (read s las' ≡ (ok new, las'))
  write_through-read s k base a new r same_length =
      subst
        (λ (x : Result (Unit {0}) × LogicalAddressSpace S).
          (x.0 ≡ ok tt) × (read s x.1 ≡ (ok new, x.1)))
        (sym (write_through_lem arr las s k base a r new same_length))
        (refl, read-Holds arr _ s k base new (after_self s k base a r new same_length))

  -- A write of a buffer of its length through a slice does not change what a slice that shares no
  -- address with it reads, on the same source or on another, when each is not empty and lies
  -- inside one page, of a size 2^k, of a byte-addressable source.
  pub write_through-read-Disjoint :
      (s t : LogicalSlice) (k base base' : ℕ) (a a' : SourceAllocator S) (new : List ℕ)
      → Resolves arr las s k base a
      → Resolves arr las t k base' a'
      → length new ≡ s.len
      → Disjoint s t
      → (read t (write_through s new las).1).0 ≡ (read t las).0
  write_through-read-Disjoint s t k base base' a a' new r q same_length apart =
      subst (λ (x : Result (Unit {0}) × LogicalAddressSpace S). (read t x.1).0 ≡ (read t las).0)
        (sym (write_through_lem arr las s k base a r new same_length))
        (ap (λ (y : Result (List ℕ) × LogicalAddressSpace S). y.0)
            (read-Holds arr _ t k base' _
              (after-Disjoint s k base a r new same_length t base' a' apart q))
          ∙ ap (λ (y : Result (List ℕ) × LogicalAddressSpace S). y.0)
              (sym (read_lem arr las t k base' a' q)))
