-- ===== src/Vos/Alloc/Rounds.antt =====
-- The rounds of the loop of `GenericAllocator::alloc`.
use librarius.Prelude.{
  ℕ, suc, ◌≡◌, ◌≢◌, refl, subst, sym, Bool, true, false, Option, none, some, Option-cases, inl, inr,
  arith, ltb, min,
}
use librarius.Error.{out_of_fuel, Action, continue}
use librarius.Source.{Source}
use librarius.Source.Allocator.Ends.{
  Ends, Ends-not_cut, Returning, continue-Ends, lift-Ends, if-Ends,
}
use librarius.Las.Slice.{LogicalSlice}
use librarius.Las.MutRef.{LogicalMutRef, try_consume_bytes}
use librarius.Las.Space.{LogicalAddressSpace}
use librarius.Las.Space
use librarius.Las.Space.Ends.{alloc-Ends}
use librarius.Vos.Alloc.{Allocating, on_las, ensure_active, consumed, alloc_loop, generic_alloc}

try_consume_bytes-Ends :
    (mref : LogicalMutRef) (size least : ℕ) → Ends (try_consume_bytes mref size least)
unfolding try_consume_bytes
try_consume_bytes-Ends mref size least =
    if-Ends (ltb (min mref.slice.len size) least) _ _ tt
      (if-Ends (ltb mref.region.len (min mref.slice.len size)) _ _ tt tt)

module _ {S : Type 0} ⦃src : Source S⦄ (returning : Returning S) (size : ℕ) where
  abbrev Pieces : Type 0
  Pieces = LogicalSlice × LogicalSlice

  consumed-Ends :
      (again : Action (Allocating S) Pieces) (fresh : Bool) (it : Option Pieces)
      (mref : LogicalMutRef) (s : Allocating S)
      → (fresh ≡ false → Ends (again (record s { active = none })).0)
      → Ends (consumed again fresh (it, mref) s).0
  unfolding consumed
  consumed-Ends again fresh (some it) mref s h = tt
  consumed-Ends again true none mref s h = tt
  consumed-Ends again false none mref s h = h refl

  -- A round on a page.
  abbrev on_page :
      Action (Allocating S) Pieces → Bool → LogicalMutRef → Action (Allocating S) Pieces
  on_page again fresh mref s = continue (try_consume_bytes mref size size, s) (consumed again fresh)

  on_page-Ends :
      (again : Action (Allocating S) Pieces) (fresh : Bool) (mref : LogicalMutRef)
      (s : Allocating S)
      → (fresh ≡ false → Ends (again (record s { active = none })).0)
      → Ends (on_page again fresh mref s).0
  on_page-Ends again fresh mref s h =
      lift-Ends (try_consume_bytes mref size size) (consumed again fresh) s
        (try_consume_bytes-Ends mref size size) λ x. consumed-Ends again fresh x.0 x.1 s h

  -- A round without an active page takes a fresh one, and is the last.
  no_page-Ends :
      (n : ℕ) (s : Allocating S) → s.active ≡ none → Ends (alloc_loop (suc n) false size s).0
  unfolding alloc_loop ensure_active
  no_page-Ends n s idle =
      let again = alloc_loop n false size in
      let taken = on_las Space.alloc s in
      let rest : LogicalMutRef → Action (Allocating S) Pieces =
        λ mref t. on_page again true mref (record t { active = some mref }) in
      let same : alloc_loop (suc n) false size s ≡ continue taken rest = ground (arith, idle) in
      subst (λ x. Ends x.0) (sym same)
        (continue-Ends taken rest (alloc-Ends returning s.las)
          λ mref t. on_page-Ends again true mref (record t { active = some mref }) λ e. cc e)

  two_rounds-Ends : (s : Allocating S) → Ends (alloc_loop 2 false size s).0
  unfolding alloc_loop ensure_active
  two_rounds-Ends s = elim (Option-cases s.active) [
    | inl idle ↦ no_page-Ends 1 s idle
    | inr (mref, here) ↦
        let again = alloc_loop 1 false size in
        let same : alloc_loop 2 false size s ≡ on_page again false mref s = ground (arith, here) in
        subst (λ x. Ends x.0) (sym same)
          (on_page-Ends again false mref s λ _. no_page-Ends 0 (record s { active = none }) refl)
  ]

  -- Over sources whose methods all come back: GenericAllocator::alloc, its loop allowed two
  -- rounds, comes back without running out of them, and allowed more rounds it has the same result
  -- and state.
  pub alloc_loop-generic_alloc :
      (extra : ℕ) (s : Allocating S)
      → (alloc_loop (suc (suc extra)) false size s ≡ generic_alloc size s)
        × ((generic_alloc size s).0 ≢ out_of_fuel)
  unfolding alloc_loop generic_alloc
  alloc_loop-generic_alloc extra s = (ground arith, Ends-not_cut _ (two_rounds-Ends s))
