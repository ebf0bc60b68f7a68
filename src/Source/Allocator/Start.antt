-- ===== src/Source/Allocator/Start.antt =====
-- The state that `SourceAllocator::new` ends in.
use native.Mathlib.Nat.{div-mul-le_self, le-div_iff_mul-le}
use librarius.Prelude.{
  ℕ, ◌+◌, ◌-◌, ◌*◌, ◌/◌, ◌^◌, ◌≤◌, ◌<◌, ◌≡◌, refl, sym, ap, subst, Bool, true, false, if◌then◌else◌,
  List, [], arith, All, All-map, ◌==◌, not, leb, length, Bool-cases, inl, inr,
}
use librarius.Usize.{word, wrapping_add, wrapping_sub}
use librarius.Utils.{align_up, align_down}
use librarius.Utils.Align.{align_up_lem, align_down_lem, align_down_bounds, one_page, pow_bounds}
use librarius.Error.{
  Result, ok, err, panic, out_of_fuel, Action, continue, lift, wrong_pagesize, assert, ◌>>=◌, ◌>>◌,
}
use librarius.Source.{Source}
use librarius.Source.Header.{header_size, header_bytes, header_from_slice, new_header, is_valid}
use librarius.Source.Allocator.{
  SourceAllocator, on_source, create, check_header, scan, initialize, source_length,
}
use librarius.Source.Allocator.Pages.{IsSound}
use librarius.Source.Allocator.Freelist.{IsPage}
use librarius.Source.Allocator.Scan.{Scanned, Succeeds, scan-Scanned}

module _ {S : Type 0} where
  -- The allocator with nothing handed out.
  abbrev pub Fresh : ℕ → SourceAllocator S → Type 0
  Fresh limit a = IsSound limit (record { allocator = a; live = [] })

  Succeeds-continue :
      {A : Type 0} (P : SourceAllocator S → Type 0) (x : Result A × SourceAllocator S)
      (f : A → Action (SourceAllocator S) (Unit {0}))
      → ((v : A) → Succeeds P (f v x.1))
      → Succeeds P (continue x f)
  Succeeds-continue P (ok v, a) f h = h v
  Succeeds-continue P (err _, a) f h = tt
  Succeeds-continue P (panic, a) f h = tt
  Succeeds-continue P (out_of_fuel, a) f h = tt

  Succeeds-map :
      (P Q : SourceAllocator S → Type 0) (x : Result (Unit {0}) × SourceAllocator S)
      → ((a : SourceAllocator S) → P a → Q a)
      → Succeeds P x
      → Succeeds Q x
  Succeeds-map P Q (ok v, a) f h = f a h
  Succeeds-map P Q (err _, a) f h = tt
  Succeeds-map P Q (panic, a) f h = tt
  Succeeds-map P Q (out_of_fuel, a) f h = tt

  Scanned-Fresh : (p limit : ℕ) (a : SourceAllocator S) → Scanned p limit limit a → Fresh limit a
  Scanned-Fresh p limit a s = record {
    free_pages = subst (λ (t : ℕ). All (IsPage t limit) a.freelist) (sym s.of_size) s.pages;
    live_pages = tt;
    free_apart = s.apart;
    live_apart = tt;
    across = All-map (λ q h. tt) a.freelist s.pages;
  }

-- A source of a constant length: the calls that `new` makes keep it.
pub record KeepsLength (S : Type 0) ⦃src : Source S⦄ (limit : ℕ) : Type 1 where
  pub Long : S → Type 0
  pub length_lem : (s : S) → Long s → src.length s ≡ ok limit
  pub read_lem : (s : S) (offset len : ℕ) → Long s → Long (src.read offset len s).1
  pub write_lem : (s : S) (offset : ℕ) (bytes : List ℕ) → Long s → Long (src.write offset bytes s).1
  pub flush_lem : (s : S) → Long s → Long (src.flush s).1

module _ {S : Type 0} (P : SourceAllocator S → Type 0) where
  continue_keeps :
      {A B : Type 0} (x : Result A × SourceAllocator S) (f : A → Action (SourceAllocator S) B)
      → P x.1
      → ((v : A) → P (f v x.1).1)
      → P (continue x f).1
  continue_keeps (ok v, a) f h k = k v
  continue_keeps (err _, a) f h k = h
  continue_keeps (panic, a) f h k = h
  continue_keeps (out_of_fuel, a) f h k = h

  if_keeps :
      {A : Type 0} (b : Bool) (m n : Action (SourceAllocator S) A) (a : SourceAllocator S)
      → P (m a).1
      → P (n a).1
      → P ((if b then m else n) a).1
  if_keeps true m n a h k = h
  if_keeps false m n a h k = k

module _ (k limit : ℕ) (small : k < 63) (holds_header : header_size ≤ 2 ^ k)
    (room : 2 * 2 ^ k ≤ limit) (fits : limit < word) where
  base_lem : wrapping_add (align_up header_size (2 ^ k)) (2 ^ k) ≡ 2 * 2 ^ k
  base_lem =
      let b = pow_bounds k (omega arith) in
      let short : k < 64 = omega arith in
      omega (
        arith,
        b,
        align_up_lem k header_size short (omega (arith, b)),
        ap (λ (t : ℕ). t * 2 ^ k)
            (one_page (header_size + 2 ^ k - 1) (2 ^ k) (omega arith)
              (omega (arith, holds_header))),
      )

  rounds_lem :
      2 * 2 ^ k + (0 + wrapping_sub (align_down limit (2 ^ k)) (2 * 2 ^ k) / 2 ^ k) * 2 ^ k ≤ limit
  rounds_lem =
      let (_, low, near) = align_down_bounds k limit (omega arith) fits in
      let above : 2 * 2 ^ k ≤ align_down limit (2 ^ k) =
        let two : 2 ≤ limit / 2 ^ k =
          (le-div_iff_mul-le {k = 2 ^ k} {x = 2} {y = limit} (pow_bounds k (omega arith)).0).1
            room in
        grind (arith, two, align_down_lem k limit (omega arith) fits) in
      let e : wrapping_sub (align_down limit (2 ^ k)) (2 * 2 ^ k)
          ≡ align_down limit (2 ^ k) - 2 * 2 ^ k =
        omega arith in
      omega (
        arith,
        ap (λ (t : ℕ). t / 2 ^ k * 2 ^ k) e,
        div-mul-le_self (align_down limit (2 ^ k) - 2 * 2 ^ k) (2 ^ k),
      )

  module _ {S : Type 0} ⦃src : Source S⦄ (crc : List ℕ → ℕ) (valid : List ℕ → Bool)
      (keeps : KeepsLength S limit) where
    create-Long : (a : SourceAllocator S) → keeps.Long a.source → keeps.Long (create crc a).1.source
    unfolding create
    create-Long a long =
        let bytes = header_bytes (new_header crc a.pagesize) in
        let written = keeps.write_lem a.source 0 bytes long in
        continue_keeps (λ b. keeps.Long b.source) {A = Unit {0}} {B = Unit {0}}
          (on_source (src.write 0 bytes) a) (λ _. on_source src.flush) written
          (λ _. keeps.flush_lem (src.write 0 bytes a.source).1 written)

    check_header-Long :
        (bytes : List ℕ) (a : SourceAllocator S)
        → keeps.Long a.source
        → keeps.Long (check_header crc bytes a).1.source
    unfolding check_header
    check_header-Long bytes a long =
        let h = header_from_slice bytes in
        elim (Bool-cases (leb header_size (length bytes))) [
          | inl fits ↦
              let same : check_header crc bytes a
                  ≡ (if not (is_valid crc h)
                        then create crc
                        else lift (
                            if h.header.pagesize == a.pagesize
                            then ok tt
                            else err (wrong_pagesize h.header.pagesize a.pagesize)))
                      a =
                ground (arith, fits) in
              subst (λ x. keeps.Long x.1.source) (sym same)
                (if_keeps (λ b. keeps.Long b.source) {A = Unit {0}} (not (is_valid crc h))
                  (create crc) _ a (create-Long a long) long)
          | inr short ↦
              let same : check_header crc bytes a ≡ (panic, a) = ground (arith, short) in
              subst (λ x. keeps.Long x.1.source) (sym same) long
        ]

    check_header-source :
        (bytes : List ℕ) (a : SourceAllocator S)
        → (check_header crc bytes a).1 ≡ record a { source = (check_header crc bytes a).1.source }
    unfolding check_header create
    check_header-source bytes a = ground arith

    abbrev empty : S → SourceAllocator S
    empty s = record { source = s; freelist = []; pagesize = 2 ^ k }

    -- The rest of `initialize` once the header is there.
    abbrev ending : Action (SourceAllocator S) (Unit {0})
    ending = do
      length ← (λ a. (source_length a, a))
      assert (not (2 ^ k == 0))
      scan crc valid
          (wrapping_sub length (wrapping_add (align_up header_size (2 ^ k)) (2 ^ k)) / 2 ^ k)
          (wrapping_add (align_up header_size (2 ^ k)) (2 ^ k)) 0

    ending-scan :
        (s : S)
        → keeps.Long s
        → ending (empty s)
          ≡ scan crc valid
              (wrapping_sub (align_down limit (2 ^ k)) (2 * 2 ^ k) / 2 ^ k)
              (2 * 2 ^ k)
              0
              (empty s)
    unfolding source_length
    ending-scan s long = ground (arith, base_lem, keeps.length_lem s long, pow_bounds k)

    ending-Fresh : (s : S) → keeps.Long s → Succeeds (Fresh limit) (ending (empty s))
    ending-Fresh s long = subst (Succeeds (Fresh limit)) (sym (ending-scan s long)) (
        Succeeds-map (Scanned (2 ^ k) limit limit) (Fresh limit) _ (Scanned-Fresh (2 ^ k) limit) (
          scan-Scanned (2 ^ k) limit (pow_bounds k (omega arith)).0 fits crc valid _ 0 (empty s)
            rounds_lem record { of_size = refl; pages = tt; apart = tt; below = tt }))

    -- For a page size 2^k that holds the header, k below 63, and a source of a constant length of
    -- at least two pages and below 2^64, a successful initialize leaves free pages that satisfy
    -- the invariant of the pages, with none handed out.
    pub initialize-IsSound :
        (s : S) → keeps.Long s → Succeeds (Fresh limit) (initialize crc valid (empty s))
    unfolding initialize
    initialize-IsSound s long =
        Succeeds-continue (Fresh limit) (on_source (src.read 0 (2 ^ k)) (empty s)) _ λ bytes.
          let a = empty (src.read 0 (2 ^ k) s).1 in
          Succeeds-continue (Fresh limit) (check_header crc bytes a) _ λ _.
            subst (λ (b : SourceAllocator S). Succeeds (Fresh limit) (ending b))
              (sym (check_header-source bytes a))
              (ending-Fresh (check_header crc bytes a).1.source
                (check_header-Long bytes a (keeps.read_lem s 0 (2 ^ k) long)))
