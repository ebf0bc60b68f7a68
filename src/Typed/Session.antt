-- ===== src/Typed/Session.antt =====
-- Two transactions run one after the other: one allocates an object at its type, the next reads it.
use librarius.Prelude.{
  ℕ, suc, ◌+◌, ◌^◌, ◌≤◌, ◌<◌, ◌≡◌, refl, sym, ap, subst, ◌∙◌, arith, none, List,
}
use librarius.Error.{Result, ok, continue, pure, ◌>>=◌}
use librarius.Source.{Source, Page}
use librarius.Source.Contract.{Addressable}
use librarius.Source.Allocator.{SourceAllocator}
use librarius.Las.Space.Fresh.{whole_page}
use librarius.Vos.Pointer.Words.{address_space}
use librarius.Vos.Place.{local}
use librarius.Vos.Version.Slot.{indirect}
use librarius.Vos.Version.Words.{direct_space}
use librarius.Vos.Object.{total, object_header_size}
use librarius.Vos.Alloc.{alloc_new}
use librarius.Vos.Alloc.Fresh.{TwoPages, own_slot, alloc_object-fresh}
use librarius.Tx.Fresh.{
  made, after_page, allocator_left, prepared, next-IsTight, page_run, slot_there, object_region,
  slot_apart,
}
use librarius.Tx.{Transaction, new_transaction, write_version, alloc, commit, read}
use librarius.Engine.{Librarius, run_once, finish}
use librarius.Typed.{
  Persistent, PersistentPointer, PointerRef, layout_of, from_raw, from_raw_ref, alloc_typed,
  read_typed,
}
use librarius.Typed.Create.{create, create-read_typed, create-counted, alloc_run}

module _ {T S : Type 0} ⦃persistent : Persistent T⦄ ⦃src : Source S⦄ where
  -- A run of an allocation that succeeds is the allocation and the commit.
  run_once-create :
      (f : Unit {0} → T) (l : Librarius S) (pointer : PersistentPointer T) (t' : Transaction S)
      → alloc_typed f (new_transaction l.vos l.root) ≡ (ok pointer, t')
      → run_once (alloc_typed f) l ≡ (
        (create f (new_transaction l.vos l.root)).0,
        record l { vos = (create f (new_transaction l.vos l.root)).1.vos },
      )
  unfolding run_once finish create
  run_once-create f l pointer t' run = ground (arith, run)

  -- A run of a read that succeeds.
  run_once-read :
      (fuel : ℕ) (pointer : PointerRef T) (x : T) (l : Librarius S)
      → (read_typed fuel pointer (new_transaction l.vos l.root)).0 ≡ ok x
      → (run_once (read_typed fuel pointer) l).0 ≡ ok x
  unfolding run_once finish read_typed read commit new_transaction
  run_once-read fuel pointer x l got = ground (arith, got)

module _ {T S : Type 0} ⦃persistent : Persistent T⦄ ⦃src : Source S⦄ (arr : Addressable S)
    (k base : ℕ) (page next : Page) (rest : List Page) (l : Librarius S)
    (pages : TwoPages arr k base l.vos.las page next rest)
    (copy_placed : next.offset + base + object_header_size < address_space)
    (bounded : next.offset + base + next.len < 2 ^ 64)
    (widths : (persistent.size.pointers < 2 ^ 32)
      × (persistent.size.user_data < 2 ^ 32)
      × (0 < total persistent.size))
    (whole : persistent.layout.size_of ≡ total persistent.size)
    (fits : total persistent.size + object_header_size ≤ next.len)
    (small : l.vos.version + 1 < direct_space) (f : Unit {0} → T) where
  abbrev fresh : Transaction S
  fresh = new_transaction l.vos l.root

  abbrev ready : Transaction S
  ready = prepared arr k base l.vos l.root page next rest pages bounded

  abbrev left : SourceAllocator S
  left = allocator_left arr k base l.vos l.root page next rest pages bounded

  alloc_same : alloc_typed f fresh ≡ alloc_typed f ready
  unfolding alloc_typed alloc write_version alloc_new new_transaction
  alloc_same =
      let same =
        alloc_object-fresh
          (record {
            las = (made arr k base l.vos l.root page next rest pages bounded).las_after;
            active = none;
          })
          (whole_page arr k base next)
          (after_page arr k base l.vos l.root page next rest pages bounded) persistent.size
          (indirect (own_slot arr k base l.vos.las page next rest)) 0 refl
          (page_run arr k base l.vos l.root page next rest pages bounded)
          (next-IsTight arr k base l.vos l.root page next rest pages bounded) fits in
      ground (arith, (made arr k base l.vos l.root page next rest pages bounded).run, same)

  -- The next transaction, as it starts.
  abbrev following : Transaction S
  following = record fresh { snapshot = l.vos.version + 1 }

  read_after :
      (fuel : ℕ)
      → ((create f ready).0 ≡ ok (from_raw (next.offset + base + object_header_size)))
        × ((read_typed
              (suc (suc fuel))
              (from_raw_ref (local (next.offset + base + object_header_size)))
              (new_transaction (create f ready).1.vos l.root)).0
            ≡ ok (f tt))
  unfolding new_transaction
  read_after fuel =
      let (committed, got) =
        create-read_typed arr k base left ready (whole_page arr k base next)
          (own_slot arr k base l.vos.las page next rest) refl
          (slot_there arr k base l.vos l.root page next rest pages bounded)
          (omega (arith, pages.low)) copy_placed widths whole refl
          (next-IsTight arr k base l.vos l.root page next rest pages bounded) fits
          (object_region arr k base l.vos l.root page next rest pages bounded persistent.size fits)
          (slot_apart arr k base l.vos l.root page next rest pages bounded persistent.size fits)
          refl small f following fuel (omega arith) in
      let counted =
        create-counted arr k base left ready (whole_page arr k base next)
          (own_slot arr k base l.vos.las page next rest) refl
          (slot_there arr k base l.vos l.root page next rest pages bounded)
          (omega (arith, pages.low)) copy_placed widths whole refl
          (next-IsTight arr k base l.vos l.root page next rest pages bounded) fits
          (object_region arr k base l.vos l.root page next rest pages bounded persistent.size fits)
          (slot_apart arr k base l.vos l.root page next rest pages bounded persistent.size fits)
          refl small f following fuel in
      (
        committed,
        subst
            (λ (n : ℕ).
              (read_typed (suc (suc fuel))
                (from_raw_ref (local (next.offset + base + object_header_size)))
                (record fresh { vos = (create f ready).1.vos; snapshot = n })).0
              ≡ ok (f tt))
            (sym counted) got,
      )

  create_same : create f fresh ≡ create f ready
  unfolding create
  create_same =
      ap
        (λ (y : Result (PersistentPointer T) × Transaction S).
          continue y (λ pointer. commit >>= λ _. pure pointer))
        alloc_same

  run_lem :
      run_once (alloc_typed f) l ≡ ((create f ready).0, record l { vos = (create f ready).1.vos })
  run_lem =
      run_once-create f l (from_raw (next.offset + base + object_header_size)) _ (
        alloc_same
        ∙ alloc_run arr k base left ready (whole_page arr k base next)
            (own_slot arr k base l.vos.las page next rest) refl
            (slot_there arr k base l.vos l.root page next rest pages bounded)
            (omega (arith, pages.low)) copy_placed widths whole refl
            (next-IsTight arr k base l.vos l.root page next rest pages bounded) fits
            (object_region arr k base l.vos l.root page next rest pages bounded persistent.size
              fits)
            (slot_apart arr k base l.vos l.root page next rest pages bounded persistent.size fits)
            refl small f following 0)
      ∙ ap (λ (y : Result (PersistentPointer T) × Transaction S). (y.0, record l { vos = y.1.vos }))
          create_same

  -- For a database whose first byte-addressable source has two free pages in memory, below 2^54
  -- and apart, the first with room for a version slot and the second for an object of the type,
  -- which is not empty and whose bytes fill the user's part, with the next count below 2^63:
  -- run_once of alloc_typed succeeds with a pointer behind the header at the start of the second
  -- page, and run_once of read_typed through that pointer, on the database that the first run
  -- leaves, gives the value of the closure.
  pub run_once-alloc-read :
      (fuel : ℕ)
      → ((run_once (alloc_typed f) l).0 ≡ ok (from_raw (next.offset + base + object_header_size)))
        × ((run_once
              (read_typed
                (suc (suc fuel))
                (from_raw_ref (local (next.offset + base + object_header_size))))
              (run_once (alloc_typed f) l).1).0
            ≡ ok (f tt))
  run_once-alloc-read fuel =
      let (committed, got) = read_after fuel in
      subst
        (λ (y : Result (PersistentPointer T) × Librarius S).
          (y.0 ≡ ok (from_raw (next.offset + base + object_header_size)))
          × ((run_once
                (read_typed (suc (suc fuel))
                  (from_raw_ref (local (next.offset + base + object_header_size))))
                y.1).0
              ≡ ok (f tt)))
        (sym run_lem)
        (
          committed,
          run_once-read (suc (suc fuel))
              (from_raw_ref (local (next.offset + base + object_header_size))) (f tt)
              (record l { vos = (create f ready).1.vos }) got,
        )
