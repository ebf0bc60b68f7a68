-- ===== src/Source/Allocator/Scan.antt =====
-- The free list that a new `SourceAllocator` starts with.
use native.Mathlib.Nat.{mul-mod_left, add-mul-mod_self_right}
use librarius.Prelude.{
  ℕ, zero, suc, ◌+◌, ◌*◌, ◌≤◌, ◌<◌, ◌≡◌, refl, sym, ap, subst, Bool, inl, inr, ◌∙◌, List, [], ◌∷◌,
  arith, All, All-append, All-map, Bool-cases,
}
use librarius.Usize.{word, wrapping_add, wrapping_mul}
use librarius.Error.{Result, ok, err, panic, out_of_fuel}
use librarius.Source.{Source, Page, new_page}
use librarius.Source.Allocator.{SourceAllocator, free_page, scan}
use librarius.Source.Allocator.Freelist.{IsPage, AllApart, AllApart-append_one}

-- The free pages are pages of the source that share no byte, and end by a bound.
pub record Scanned {S : Type 0} (pagesize limit bound : ℕ) (a : SourceAllocator S) : Type 0 where
  pub of_size : a.pagesize ≡ pagesize
  pub pages : All (IsPage pagesize limit) a.freelist
  pub apart : AllApart a.freelist
  pub below : All (λ p. p.offset + p.len ≤ bound) a.freelist

abbrev pub Succeeds :
    {S : Type 0} → (SourceAllocator S → Type 0) → Result (Unit {0}) × SourceAllocator S → Type 0
Succeeds P (ok _, a) = P a
Succeeds P (_, a) = Unit

module _ (p limit : ℕ) (positive : 1 ≤ p) (small : limit < word) where
  -- The page that a round of the scan looks at.
  abbrev here : ℕ → Page
  here n = new_page (2 * p + n * p) p

  here-IsPage : (n : ℕ) → 2 * p + n * p + p ≤ limit → IsPage p limit (here n)
  here-IsPage n fits = record {
    sized = refl;
    aligned = add-mul-mod_self_right (2 * p) n p ∙ mul-mod_left 2 p;
    behind = omega arith;
    inside = fits;
  }

  here-Scanned :
      {S : Type 0} (n : ℕ) (a : SourceAllocator S)
      → 2 * p + n * p + p ≤ limit
      → Scanned p limit (2 * p + n * p) a
      → Scanned p limit (2 * p + n * p + p) (free_page (here n) a)
  unfolding free_page
  here-Scanned n a fits s = record {
    of_size = s.of_size;
    pages = All-append (IsPage p limit) a.freelist (here n ∷ []) s.pages (here-IsPage n fits, tt);
    apart =
        AllApart-append_one (here n) a.freelist s.apart (All-map (λ q h. inr h) a.freelist s.below);
    below =
        All-append (λ q. q.offset + q.len ≤ 2 * p + n * p + p) a.freelist (here n ∷ [])
          (All-map (λ q h. omega arith) a.freelist s.below) (omega arith, tt);
  }

  later-Scanned :
      {S : Type 0} (a : SourceAllocator S) (s' : S) (bound further : ℕ)
      → bound ≤ further
      → Scanned p limit bound a
      → Scanned p limit further (record a { source = s' })
  later-Scanned a s' bound further more s = record {
    of_size = s.of_size;
    pages = s.pages;
    apart = s.apart;
    below = All-map (λ q h. omega arith) a.freelist s.below;
  }

  module _ {S : Type 0} ⦃src : Source S⦄ (crc : List ℕ → ℕ) (valid : List ℕ → Bool) where
    pub scan-Scanned :
        (left n : ℕ) (a : SourceAllocator S)
        → 2 * p + (n + left) * p ≤ limit
        → Scanned p limit (2 * p + n * p) a
        → Succeeds (Scanned p limit limit) (scan crc valid left (2 * p) n a)
    unfolding scan
    scan-Scanned zero n a fits s = later-Scanned a a.source (2 * p + n * p) limit (omega arith) s
    scan-Scanned (suc left) n a fits s =
        after_read (λ a'. scan-Scanned left (n + 1) a' (omega arith))
          (src.read (2 * p + n * p) p a.source) refl
      where
        room : 2 * p + n * p + p ≤ limit
        room = omega arith

        offset : wrapping_add (2 * p) (wrapping_mul n a.pagesize) ≡ 2 * p + n * p
        offset = ap (λ (t : ℕ). wrapping_add (2 * p) (wrapping_mul n t)) s.of_size ∙ omega arith

        failed :
            (r : Result (Unit {0})) (s' : S)
            → scan crc valid (suc left) (2 * p) n a ≡ (r, record a { source = s' })
            → Succeeds (Scanned p limit limit) (r, record a { source = s' })
            → Succeeds (Scanned p limit limit) (scan crc valid (suc left) (2 * p) n a)
        failed r s' e h = subst (Succeeds (Scanned p limit limit)) (sym e) h

        after_read :
            ((a' : SourceAllocator S)
              → Scanned p limit (2 * p + (n + 1) * p) a'
              → Succeeds (Scanned p limit limit) (scan crc valid left (2 * p) (n + 1) a'))
            → (x : Result (List ℕ) × S) → src.read (2 * p + n * p) p a.source ≡ x
            → Succeeds (Scanned p limit limit) (scan crc valid (suc left) (2 * p) n a)
        after_read rest (ok bytes, s') e = elim (Bool-cases (valid bytes)) [
          | inl used ↦
              let step : scan crc valid (suc left) (2 * p) n a
                  ≡ scan crc valid left (2 * p) (n + 1) (record a { source = s' }) =
                ground (arith, offset, s.of_size, e, used) in
              subst (Succeeds (Scanned p limit limit)) (sym step) (
                rest (record a { source = s' })
                  (later-Scanned a s' (2 * p + n * p) (2 * p + (n + 1) * p) (omega arith) s))
          | inr free ↦
              let a' : SourceAllocator S = free_page (here n) (record a { source = s' }) in
              let step : scan crc valid (suc left) (2 * p) n a
                  ≡ scan crc valid left (2 * p) (n + 1) a' =
                ground (arith, offset, s.of_size, e, free) in
              let bound : 2 * p + n * p + p ≡ 2 * p + (n + 1) * p = omega arith in
              subst (Succeeds (Scanned p limit limit)) (sym step) (
                rest a' (
                  subst (λ (t : ℕ). Scanned p limit t a') bound
                    (here-Scanned n (record a { source = s' }) room
                      (later-Scanned a s' (2 * p + n * p) (2 * p + n * p) (omega arith) s))))
        ]
        after_read rest (err x, s') e = failed (err x) s' (ground (arith, offset, s.of_size, e)) tt
        after_read rest (panic, s') e = failed panic s' (ground (arith, offset, s.of_size, e)) tt
        after_read rest (out_of_fuel, s') e =
            failed out_of_fuel s' (ground (arith, offset, s.of_size, e)) tt
