-- ===== src/Las/Space/Rounds.antt =====
-- How often `flush` calls itself.
use librarius.Prelude.{
  ℕ, suc, ◌≡◌, ◌≢◌, refl, sym, ap, subst, ◌∙◌, none, some, Option-cases, Bool-cases, inl, inr, [],
  ◌∷◌, arith, List, if◌then◌else◌,
}
use librarius.Source.{Source, Page}
use librarius.Source.Allocator.{SourceAllocator, allocate_page, get_bytes, write_from}
use librarius.Source.Allocator.Ends.{
  Ends, Ends-not_cut, Returning, continue-Ends, lift-Ends, asserted-Ends, and_then-Ends,
  assert-Ends, allocate_page-Ends, get_bytes-Ends, write_from-Ends,
}
use librarius.Error.{
  no_available_memory, Result, ok, err, panic, out_of_fuel, Action, continue, assert, and_then,
  pure, lift, ◌>>=◌, ◌>>◌,
}
use librarius.Las.Slice.{
  page_aligned, page_offset, to_page, from_page, new_stored, raw, same_kind, new_slice,
  LogicalSlice, StoredLogicalSlice, byte,
}
use librarius.Usize.{wrapping_add}
use librarius.Las.Table.{Table, insert, lookup, replace}
use librarius.Las.Space.{
  LogicalAddressSpace, unwrap, with_source, on_allocator, allocate_backing, flush,
  get_best_persistent,
}
use librarius.Las.Space.Ends.{unwrap-Ends, to_page-Ends, on_allocator-Ends, with_source-Ends}

lookup-insert : {V : Type 0} (k : ℕ) (v : V) (t : Table V) → lookup k (insert k v t) ≡ some v
unfolding lookup insert
lookup-insert k v [] = ground arith
lookup-insert k v ((j, w) ∷ t) = ground (arith, lookup-insert k v t)

module _ {S : Type 0} ⦃src : Source S⦄ where
  -- How `allocate_backing` ends: if it succeeds, there is a backing for the key.
  abbrev Backs : ℕ → LogicalAddressSpace S → Result (Unit {0}) × LogicalAddressSpace S → Type 0
  Backs key las (ok _, las') =
      (las'.pagesize ≡ las.pagesize) × (b : StoredLogicalSlice) × (lookup key las'.backing ≡ some b)
  Backs key las (err _, las') = Unit
  Backs key las (panic, las') = Unit
  Backs key las (out_of_fuel, las') = ⊥

  module _ (key : ℕ) (las : LogicalAddressSpace S) (base : ℕ) (a : SourceAllocator S) where
    -- What `allocate_backing` makes of the outcome of `allocate_page`.
    abbrev paged : Result Page → SourceAllocator S → Result (Unit {0}) × LogicalAddressSpace S
    paged r c =
        continue (r, record las { sources = replace base c las.sources })
          λ page l. (
            ok tt,
            record l {
              backing =
                  insert key (new_stored (from_page page base) (src.is_byte_addressable a.source))
                    l.backing;
            },
          )

    paged-Backs : (r : Result Page) (c : SourceAllocator S) → Ends r → Backs key las (paged r c)
    paged-Backs (ok page) c h = (refl, _, lookup-insert key _ las.backing)
    paged-Backs (err _) c h = tt
    paged-Backs panic c h = tt
    paged-Backs out_of_fuel c h = h

  allocate_backing-Backs :
      (key : ℕ) (las : LogicalAddressSpace S) → Backs key las (allocate_backing key las)
  unfolding allocate_backing
  allocate_backing-Backs key las = elim (Option-cases (lookup key las.backing)) [
    | inr (b, there) ↦
        subst (Backs key las) {x = (ok tt, las)} (ground (arith, there)) (refl, b, there)
    | inl absent ↦ elim (Option-cases (get_best_persistent las)) [
      | inl nowhere ↦
          subst (Backs key las) {x = (err no_available_memory, las)}
            (ground (arith, absent, nowhere)) tt
      | inr ((base, a), best) ↦ elim (Option-cases (lookup base las.sources)) [
        | inl gone ↦
            subst (Backs key las) {x = (panic, las)} (ground (arith, absent, best, gone)) tt
        | inr (c, listed) ↦
            let (r, c') = allocate_page c in
            subst (Backs key las) {x = paged key las base a r c'}
              (ground (arith, absent, best, listed))
              (paged-Backs key las base a r c' (allocate_page-Ends c))
      ]
    ]
  ]

  flush-backed :
      (n : ℕ) (s : LogicalSlice) (las : LogicalAddressSpace S) (b : StoredLogicalSlice)
      → lookup (page_aligned s las.pagesize).offset las.backing ≡ some b
      → flush (suc n) s las ≡ flush 1 s las
  unfolding flush
  flush-backed n s las b there = ground (arith, there)

  -- The parts of flush behind the bytes of its page.
  abbrev store_at : StoredLogicalSlice → ℕ → List ℕ → ℕ → Action (LogicalAddressSpace S) (Unit {0})
  store_at b pagesize bytes base = do
    page ← lift (to_page (raw b) pagesize base)
    on_allocator base (write_from page bytes)

  abbrev store_in :
      StoredLogicalSlice
      → ℕ
      → List ℕ
      → ℕ
      → SourceAllocator S
      → Action (LogicalAddressSpace S) (Unit {0})
  store_in b pagesize bytes base dst =
      assert (src.is_persistent dst.source) >> store_at b pagesize bytes base

  module _ (returning : Returning S) (s : LogicalSlice) where
    store_in-Ends :
        (b : StoredLogicalSlice) (pagesize : ℕ) (bytes : List ℕ) (base : ℕ)
        (dst : SourceAllocator S) (las : LogicalAddressSpace S)
        → Ends (store_in b pagesize bytes base dst las).0
    store_in-Ends b pagesize bytes base dst las =
        continue-Ends (assert (src.is_persistent dst.source) las)
          (λ _. store_at b pagesize bytes base) (assert-Ends (src.is_persistent dst.source) las)
          λ _ l.
            continue-Ends (to_page (raw b) pagesize base, l)
              (λ page. on_allocator base (write_from page bytes))
              (to_page-Ends (raw b) pagesize base)
              λ page m.
                on_allocator-Ends base (write_from page bytes) m
                  (write_from-Ends returning page bytes)

    module _ (n : ℕ) (las : LogicalAddressSpace S) where
      abbrev aligned : LogicalSlice
      aligned = page_aligned s las.pagesize

      -- What flush does behind the look for the source, for the page, and for its bytes.
      abbrev flush_bytes :
          ℕ → SourceAllocator S → Page → List ℕ → Action (LogicalAddressSpace S) StoredLogicalSlice
      flush_bytes base a page bytes =
          let offset = page_offset s page base in
          if src.is_persistent a.source
          then (do lift (src.flush_slice bytes a.source); pure (byte s))
          else (λ l. elim (lookup aligned.offset l.backing) [
            | none ↦ (do allocate_backing aligned.offset; flush n s) l
            | some b ↦
                (do
                  with_source (raw b) (store_in b las.pagesize bytes)
                  pure (same_kind b (new_slice (wrapping_add (raw b).offset offset) s.len)))
                  l
          ])

      abbrev flush_page :
          ℕ → SourceAllocator S → Page → Action (LogicalAddressSpace S) StoredLogicalSlice
      flush_page base a page = do
        bytes ← lift (and_then (get_bytes page a) unwrap)
        flush_bytes base a page bytes

      abbrev flush_in : ℕ → SourceAllocator S → Action (LogicalAddressSpace S) StoredLogicalSlice
      flush_in base a = do
        assert (src.is_byte_addressable a.source)
        page ← lift (to_page aligned las.pagesize base)
        flush_page base a page

      flush-flush_in : flush (suc n) s las ≡ with_source aligned flush_in las
      unfolding flush
      flush-flush_in = refl

      module _
          (again : lookup aligned.offset las.backing ≡ none
            → Ends ((allocate_backing aligned.offset >> flush n s) las).0) where
        flush_bytes-Ends :
            (base : ℕ) (a : SourceAllocator S) (page : Page) (bytes : List ℕ)
            → Ends (flush_bytes base a page bytes las).0
        flush_bytes-Ends base a page bytes = elim (Bool-cases (src.is_persistent a.source)) [
          | inl kept ↦
              rw (kept, Ends)
                (lift-Ends (src.flush_slice bytes a.source) (λ _. pure (byte s)) las
                  (returning.flush_slice_ends bytes a.source) λ _. tt)
          | inr lost ↦ elim (Option-cases (lookup aligned.offset las.backing)) [
            | inl absent ↦
                let same : flush_bytes base a page bytes las
                    ≡ (allocate_backing aligned.offset >> flush n s) las =
                  ground (arith, lost, absent) in
                subst (λ x. Ends x.0) (sym same) (again absent)
            | inr (b, there) ↦
                let out =
                  same_kind b
                    (new_slice (wrapping_add (raw b).offset (page_offset s page base)) s.len) in
                let stored = with_source (raw b) (store_in b las.pagesize bytes) las in
                let same : flush_bytes base a page bytes las ≡ continue stored (λ _. pure out) =
                  ground (arith, lost, there) in
                subst (λ x. Ends x.0) (sym same)
                  (continue-Ends stored (λ _. pure out)
                    (with_source-Ends (raw b) (store_in b las.pagesize bytes) las
                      λ dst_base dst. store_in-Ends b las.pagesize bytes dst_base dst las)
                    λ _ _. tt)
          ]
        ]

        -- One round of flush comes back if the call of itself that it may make does.
        round-Ends : Ends (flush (suc n) s las).0
        round-Ends =
            subst (λ x. Ends x.0) (sym flush-flush_in)
              (with_source-Ends aligned flush_in las λ base a.
                asserted-Ends (src.is_byte_addressable a.source)
                  (lift (to_page aligned las.pagesize base) >>= flush_page base a) las
                  (lift-Ends (to_page aligned las.pagesize base) (flush_page base a) las
                    (to_page-Ends aligned las.pagesize base)
                    λ page.
                      lift-Ends (and_then (get_bytes page a) unwrap) (flush_bytes base a page) las
                        (and_then-Ends (get_bytes page a) unwrap (get_bytes-Ends returning page a)
                          unwrap-Ends)
                        (flush_bytes-Ends base a page)))

    flush-backed-Ends :
        (las : LogicalAddressSpace S) (b : StoredLogicalSlice)
        → lookup (page_aligned s las.pagesize).offset las.backing ≡ some b
        → Ends (flush 1 s las).0
    flush-backed-Ends las b there = round-Ends 0 las λ absent. cc (there, absent)

    -- What follows `allocate_backing`.
    rest_lem :
        (extra : ℕ) (las : LogicalAddressSpace S) (x : Result (Unit {0}) × LogicalAddressSpace S)
        → Backs (page_aligned s las.pagesize).offset las x
        → (continue x (λ _. flush (suc extra) s) ≡ continue x (λ _. flush 1 s))
          × Ends (continue x (λ _. flush 1 s)).0
    rest_lem extra las (ok _, las') (paged, b, there) =
        let here = ap (λ (p : ℕ). lookup (page_aligned s p).offset las'.backing) paged ∙ there in
        (flush-backed extra s las' b here, flush-backed-Ends las' b here)
    rest_lem extra las (err _, las') h = (refl, tt)
    rest_lem extra las (panic, las') h = (refl, tt)
    rest_lem extra las (out_of_fuel, las') h = absurd h

    -- Over sources whose methods all come back: flush allowed two calls, its first one counted,
    -- comes back without running out of them, and allowed more it has the same result and state,
    -- so that it calls itself at most once.
    pub flush-rounds :
        (extra : ℕ) (las : LogicalAddressSpace S)
        → (flush (suc (suc extra)) s las ≡ flush 2 s las) × ((flush 2 s las).0 ≢ out_of_fuel)
    unfolding flush
    flush-rounds extra las =
        let key = (page_aligned s las.pagesize).offset in
        let (same, ends) =
          rest_lem extra las (allocate_backing key las) (allocate_backing-Backs key las) in
        (ground (arith, same), Ends-not_cut _ (round-Ends 1 las λ _. ends))
