-- ===== src/Tx/Writes.antt =====
-- `TransactionWrite`: its swap and its rollback, for one write and for a whole write set.
use librarius.Prelude.{ℕ, ◌<◌, ◌≡◌, ◌≢◌, refl, sym, arith, true, false, List, [], ◌∷◌, All, All-map}
use librarius.Usize.{word}
use librarius.Error.{ok}
use librarius.Source.{Source}
use librarius.Source.Contract.{Addressable}
use librarius.Las.Space.{LogicalAddressSpace}
use librarius.Vos.Pointer.{UntypedPointer, new_byte, address, is_block}
use librarius.Vos.Pointer.Words.{new_byte_lem, address_lem, block_kind}
use librarius.Vos.Place.{Place, cell, local}
use librarius.Vos.Place.Words.{
  Word, Apart, Apart-symm, Stored, compare_and_swap-hit, compare_and_swap-miss,
}
use librarius.Tx.{TransactionWrite, perform, rollback, rollback_all}

-- Where a write stands, for a write to a word of the address space.
abbrev pub target : Place → ℕ
target (cell c) = c
target (local _) = 0

module _ {S : Type 0} ⦃src : Source S⦄ (arr : Addressable S) (k : ℕ) where
  -- The write has been performed: its word holds the new pointer.
  pub record Performed (las : LogicalAddressSpace S) (w : TransactionWrite) : Type 0 where
    pub at_cell : w.dst ≡ cell (target w.dst)
    pub fits : w.current < word
    pub holds : Word arr k las (target w.dst) w.new

  -- All of a write set has been performed, on words that share no byte.
  abbrev pub AllPerformed : LogicalAddressSpace S → List TransactionWrite → Type 0
  AllPerformed las [] = Unit
  AllPerformed las (w ∷ ws) =
      Performed las w × All (λ x. Apart (target w.dst) (target x.dst)) ws × AllPerformed las ws

  rollback_lem :
      {las : LogicalAddressSpace S} (w : TransactionWrite)
      → Performed las w
      → (las' : LogicalAddressSpace S) × (rollback w las ≡ (ok tt, las'))
        × Stored arr k las las' (target w.dst) (new_byte w.current)
  unfolding rollback
  rollback_lem {las} w p =
      let small : new_byte w.current < word = omega (arith, new_byte_lem w.current, p.fits) in
      let (las', run, stored) =
        compare_and_swap-hit arr k (target w.dst) w.new w.new (new_byte w.current) small p.holds
          refl in
      (las', ground (arith, run, p.at_cell), stored)

  -- The rest of the write set after one write is rolled back.
  Stored-AllPerformed :
      {las las' : LogicalAddressSpace S} (c v : ℕ) (ws : List TransactionWrite)
      → Stored arr k las las' c v
      → All (λ x. Apart c (target x.dst)) ws
      → AllPerformed las ws
      → AllPerformed las' ws
  Stored-AllPerformed c v [] s apart h = tt
  Stored-AllPerformed c v (w ∷ ws) s apart h = (
    record {
      at_cell = h.0.at_cell;
      fits = h.0.fits;
      holds = s.others (target w.dst) w.new apart.0 h.0.holds;
    },
    h.1,
    Stored-AllPerformed c v ws s apart.1 h.2,
  )

  -- The space after a write set is rolled back.
  pub record Restored (las las' : LogicalAddressSpace S) (ws : List TransactionWrite) : Type 0 where
    pub targets : All (λ w. Word arr k las' (target w.dst) (new_byte w.current)) ws
    pub others :
        (d u : ℕ) → All (λ w. Apart (target w.dst) d) ws → Word arr k las d u → Word arr k las' d u

  -- The rollback of a write set whose writes have been performed, on words that share no byte,
  -- succeeds, gives each written word its old pointer back and keeps every word apart from them.
  pub rollback_all_lem :
      (ws : List TransactionWrite) (las : LogicalAddressSpace S)
      → AllPerformed las ws
      → (las' : LogicalAddressSpace S) × (rollback_all ws las ≡ (ok tt, las'))
        × Restored las las' ws
  unfolding rollback_all
  rollback_all_lem [] las h = (las, refl, record { targets = tt; others = λ d u a w. w })
  rollback_all_lem (w ∷ ws) las h =
      let (las1, first, stored) = rollback_lem w h.0 in
      let (las2, rest, restored) =
        rollback_all_lem ws las1
          (Stored-AllPerformed (target w.dst) (new_byte w.current) ws stored h.1 h.2) in
      (
        las2,
        ground (arith, first, rest),
        record {
          targets = (
            restored.others (target w.dst) (new_byte w.current)
                (All-map (λ x. Apart-symm (target w.dst) (target x.dst)) ws h.1) stored.here,
            restored.targets,
          );
          others = λ d u a v. restored.others d u a.1 (stored.others d u a.0 v);
        },
      )

  -- The swap of a write whose word holds a block pointer, with that pointer's address as the
  -- expected value, fails and changes nothing.
  pub perform-block :
      {las : LogicalAddressSpace S} (c p : ℕ) (new : UntypedPointer)
      → is_block p ≡ true
      → Word arr k las c p
      → perform (record { dst = cell c; current = address p; new = new }) las ≡ (ok false, las)
  unfolding perform
  perform-block {las} c p new kind w =
      let differs : p ≢ new_byte (address p) =
        omega (arith, block_kind p kind, new_byte_lem (address p), address_lem p) in
      ground (arith, compare_and_swap-miss arr k c p (new_byte (address p)) new w differs)

  -- The swap of a write of a pointer below 2^64 to a word that holds the byte pointer it was read
  -- as succeeds, stores the new pointer and keeps every word and slice apart from it.
  pub perform-byte :
      {las : LogicalAddressSpace S} (c a : ℕ) (new : UntypedPointer)
      → new < word
      → Word arr k las c a
      → (las' : LogicalAddressSpace S) × (perform
            (record { dst = cell c; current = a; new = new })
            las
          ≡ (ok true, las'))
        × Stored arr k las las' c new
  unfolding perform
  perform-byte {las} c a new small w =
      let (las', run, stored) =
        compare_and_swap-hit arr k c a (new_byte a) new small w (sym (new_byte_lem a)) in
      (las', ground (arith, run), stored)
