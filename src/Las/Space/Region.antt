-- ===== src/Las/Space/Region.antt =====
-- A part of a page that one source holds, and writes to parts of it.
use native.Mathlib.Decide.{ℕ_discrete}
use native.Mathlib.Nat.{
  add-mul-mod_self_right, add-mul-div_right, mod-eq_of_lt, div-eq_of_lt, div-add-mod',
}
use librarius.Prelude.{
  ℕ, ◌+◌, ◌-◌, ◌*◌, ◌/◌, ◌%◌, ◌^◌, ◌≤◌, ◌<◌, ◌≡◌, refl, sym, ap, ap₂, subst, ◌∙◌, arith, Bool, some,
  List, length, slice, eq→==, ne→==, if◌then◌else◌,
}
use librarius.Usize.{word}
use librarius.Utils.Align.{pow_bounds}
use librarius.Source.{Source}
use librarius.Source.Contract.{Addressable}
use librarius.Source.Allocator.{SourceAllocator}
use librarius.Las.Slice.{LogicalSlice}
use librarius.Las.Table.{floor}
use librarius.Las.Table.Laws.{floor-replace, floor-lookup}
use librarius.Las.Space.{LogicalAddressSpace}
use librarius.Las.Space.Translate.{Resolves, written}
use librarius.Las.Space.Memory.{Resolves-same, Resolves-other, Holds, after}

-- A start inside a page, and the same page from there on.
inside_page :
    (d x page : ℕ)
    → 0 < page
    → d % page + x < page
    → ((d + x) % page ≡ d % page + x) × ((d + x) / page ≡ d / page)
inside_page d x page positive h =
    let e : d + x ≡ d % page + x + d / page * page = omega (arith, div-add-mod' d page) in
    (
      ap (λ (t : ℕ). t % page) e
          ∙ add-mul-mod_self_right (d % page + x) (d / page) page
          ∙ mod-eq_of_lt h,
      ap (λ (t : ℕ). t / page) e
          ∙ add-mul-div_right (d % page + x) (d / page) positive
          ∙ omega (arith, div-eq_of_lt h),
    )

module _ {S : Type 0} ⦃src : Source S⦄ (arr : Addressable S) where
  -- The slice lies in one page of the source at a base address, and no other source starts in it.
  pub record Region (las : LogicalAddressSpace S) (s : LogicalSlice) (k base : ℕ)
      (a : SourceAllocator S) : Type 0 where
    pub whole : Resolves arr las s k base a
    pub bounded : s.offset + s.len ≤ word
    pub alone : (j : ℕ) → s.offset ≤ j → j < s.offset + s.len → floor j las.sources ≡ some (base, a)

  module _ (las : LogicalAddressSpace S) (s : LogicalSlice) (k base : ℕ) (a : SourceAllocator S)
      (r : Region las s k base a) where
    abbrev pub Within : LogicalSlice → Type 0
    Within t = (s.offset ≤ t.offset) × (t.offset + t.len ≤ s.offset + s.len) × (0 < t.len)

    pub Region-Resolves : (t : LogicalSlice) → Within t → Resolves arr las t k base a
    Region-Resolves t h =
        let p = r.whole.placed in
        let page = pow_bounds k (omega (arith, p.small)) in
        let x = t.offset - s.offset in
        let at : t.offset - base ≡ s.offset - base + x = omega (arith, p.above, h) in
        let same = inside_page (s.offset - base) x (2 ^ k) page.0 (omega (arith, p.in_page, h)) in
        record {
          found = r.alone t.offset h.0 (omega (arith, h));
          ordered = r.whole.ordered;
          paged = r.whole.paged;
          byte_addressable = r.whole.byte_addressable;
          sized = r.whole.sized;
          placed = record {
            small = p.small;
            above = omega (arith, p.above, h);
            addressed = omega (arith, r.bounded, h);
            positive = h.2;
            in_page = omega (arith, ap (λ (d : ℕ). d % 2 ^ k) at, same.0, p.in_page, h);
          };
          inside =
              subst (λ (d : ℕ). d * 2 ^ k + 2 ^ k ≤ arr.size a.source)
                (sym (ap (λ (d : ℕ). d / 2 ^ k) at ∙ same.1)) r.whole.inside;
        }

    pub Region-Within : (t : LogicalSlice) → Within t → Region las t k base a
    Region-Within t h = record {
      whole = Region-Resolves t h;
      bounded = omega (arith, r.bounded, h);
      alone = λ j low high. r.alone j (omega (arith, h)) (omega (arith, h));
    }

    pub Region-Holds :
        (t : LogicalSlice)
        → Within t
        → Holds arr las t k base (slice (arr.content a.source) (t.offset - base) t.len)
    Region-Holds t h = record { allocator = a; resolves = Region-Resolves t h; bytes_there = refl }

  -- A region after a write elsewhere, on its source or on another.
  module _ (las : LogicalAddressSpace S) (s : LogicalSlice) (k base : ℕ) (a : SourceAllocator S)
      (q : Resolves arr las s k base a) (new : List ℕ) (same_length : length new ≡ s.len) where
    pub after-Region :
        (t : LogicalSlice) (base' : ℕ) (a' : SourceAllocator S)
        → Region las t k base' a'
        → (b : SourceAllocator S) × Region (after arr las s k base a q new same_length) t k base' b
    after-Region t base' a' r = elim (ℕ_discrete base' base) [
      | yes e ↦
          let here = (floor-lookup s.offset las.sources q.ordered q.found).0 in
          let there = (floor-lookup t.offset las.sources r.whole.ordered r.whole.found).0 in
          let same : a ≡ a' = cc (here, there, e) in
          subst
            (λ (x : ℕ × SourceAllocator S).
              Region las t k x.0 x.1
              → (b : SourceAllocator S) × Region (after arr las s k base a q new same_length) t k
                  x.0 b)
            (ap₂ (λ (b : ℕ) (x : SourceAllocator S). (b, x)) (sym e) same)
            (λ r'. (
              written arr las s k base a q new same_length,
              record {
                whole = Resolves-same arr las s k base a q new same_length t r'.whole;
                bounded = r'.bounded;
                alone = λ j low high.
                    floor-replace j base (written arr las s k base a q new same_length) las.sources
                      q.ordered (r'.alone j low high)
                    ∙ ap
                        (λ (b : Bool).
                          some
                            (base, if b then written arr las s k base a q new same_length else a))
                        (eq→== base base refl);
              },
            ))
            r
      | no ne ↦ (
        a',
        record {
          whole = Resolves-other arr las s k base a q new same_length t base' a' ne r.whole;
          bounded = r.bounded;
          alone = λ j low high.
              floor-replace j base (written arr las s k base a q new same_length) las.sources
                q.ordered (r.alone j low high)
              ∙ ap
                  (λ (b : Bool).
                    some (base', if b then written arr las s k base a q new same_length else a'))
                  (ne→== base' base ne);
        },
      )
    ]

  -- What a slice holds, in the source that its region is in.
  pub Holds-Region :
      (las : LogicalAddressSpace S) (t : LogicalSlice) (k base : ℕ) (a : SourceAllocator S)
      (bytes : List ℕ)
      → Region las t k base a
      → Holds arr las t k base bytes
      → slice (arr.content a.source) (t.offset - base) t.len ≡ bytes
  Holds-Region las t k base a bytes r h =
      let same : a ≡ h.allocator = cc (r.whole.found, h.resolves.found) in
      ap (λ (b : SourceAllocator S). slice (arr.content b.source) (t.offset - base) t.len) same
      ∙ h.bytes_there
