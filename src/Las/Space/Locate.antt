-- ===== src/Las/Space/Locate.antt =====
-- `to_page` and `page_offset` as arithmetic: the page of a slice, and its place in the page.
use native.Mathlib.Nat.{mod-eq-sub-div-mul, div-mul-le_self}
use librarius.Prelude.{ℕ, ◌+◌, ◌-◌, ◌*◌, ◌/◌, ◌%◌, ◌^◌, ◌≤◌, ◌<◌, ◌≡◌, ap, ◌∙◌, arith}
use librarius.Usize.{word, wrapping_sub}
use librarius.Utils.{align_up, align_down}
use librarius.Utils.Align.{one_page, pow_bounds, align_down_lem, align_up_lem}
use librarius.Error.{ok}
use librarius.Source.{new_page}
use librarius.Las.Slice.{LogicalSlice, page_offset, to_page}
use librarius.Las.Space.{locate}

-- A slice that is not empty lies in one page of a source at `base`.
pub record InPage (k base : ℕ) (s : LogicalSlice) : Type 0 where
  pub small : k < 63
  pub above : base ≤ s.offset
  pub addressed : s.offset < word
  pub positive : 0 < s.len
  pub in_page : (s.offset - base) % 2 ^ k + s.len ≤ 2 ^ k

-- Where the page starts in the source, and where the slice starts in the page.
abbrev pub page_start : ℕ → ℕ → LogicalSlice → ℕ
page_start k base s = (s.offset - base) / 2 ^ k * 2 ^ k

abbrev pub page_rest : ℕ → ℕ → LogicalSlice → ℕ
page_rest k base s = (s.offset - base) % 2 ^ k

pow63 : (k : ℕ) → k < 63 → (1 ≤ 2 ^ k) × (2 ^ k ≤ 2 ^ 63)
pow63 k h = pow_bounds k (omega arith)

module _ (k base : ℕ) (s : LogicalSlice) (r : InPage k base s) where
  open r use {small, above, addressed, positive, in_page}

  short : s.len ≤ 2 ^ k
  short = omega arith

  whole_page : align_up s.len (2 ^ k) ≡ 2 ^ k
  whole_page =
      let b = pow63 k small in
      align_up_lem k s.len (omega arith) (omega (arith, short))
      ∙ ap (λ (t : ℕ). t * 2 ^ k)
          (one_page (s.len + 2 ^ k - 1) (2 ^ k) (omega arith) (omega (arith, short)))
      ∙ omega arith

  no_borrow : wrapping_sub s.offset base ≡ s.offset - base
  no_borrow = omega arith

  start_lem : align_down (wrapping_sub s.offset base) (2 ^ k) ≡ page_start k base s
  start_lem =
      ap (λ (t : ℕ). align_down t (2 ^ k)) no_borrow
      ∙ align_down_lem k (s.offset - base) (omega arith) (omega arith)

  pub start-le : page_start k base s ≤ s.offset - base
  start-le = div-mul-le_self (s.offset - base) (2 ^ k)

  pub start_rest : page_start k base s + page_rest k base s ≡ s.offset - base
  start_rest = omega (arith, start-le, mod-eq-sub-div-mul (s.offset - base) (2 ^ k))

  pub to_page_lem : to_page s (2 ^ k) base ≡ ok (new_page (page_start k base s) (2 ^ k))
  unfolding to_page
  to_page_lem = ground (arith, whole_page, start_lem)

  pub page_offset_lem :
      page_offset s (new_page (page_start k base s) (2 ^ k)) base ≡ page_rest k base s
  unfolding page_offset
  page_offset_lem =
      ap (λ (t : ℕ). wrapping_sub t (page_start k base s)) no_borrow ∙ omega (arith, start_rest)

  pub locate_lem :
      locate s (2 ^ k) base
      ≡ ok (new_page (page_start k base s) (2 ^ k), page_rest k base s, page_rest k base s + s.len)
  unfolding locate
  locate_lem =
      rw (to_page_lem, page_offset_lem)
        (ap (λ (t : ℕ). ok (new_page (page_start k base s) (2 ^ k), page_rest k base s, t))
          (omega (arith, pow63 k small)))
