-- ===== src/Las/MutRef/Pieces.antt =====
-- The pieces that `try_consume_bytes` hands out of one page.
use librarius.Prelude.{
  ℕ, ◌+◌, ◌-◌, ◌≤◌, ◌<◌, ◌≡◌, refl, sym, ap, subst, ◌∙◌, ◌⊎◌, inl, inr, Bool-cases, ltb, Option,
  some, List, [], ◌∷◌, All, All-map, arith,
}
use librarius.Usize.{word}
use librarius.Error.{Result, ok}
use librarius.Las.Slice.{LogicalSlice, new_slice, split_at}
use librarius.Las.MutRef.{LogicalMutRef, try_consume_bytes}

-- The memory that is left is that of the slice that is left.
pub record IsTight (m : LogicalMutRef) : Type 0 where
  pub same_offset : m.region.offset ≡ m.slice.offset
  pub same_len : m.region.len ≡ m.slice.len
  pub addressed : m.slice.offset + m.slice.len < word

-- Pieces handed out one after the other, the first in front.
pub data Handed : LogicalMutRef → List LogicalSlice → LogicalMutRef → Type 0 where
  nothing : {m : LogicalMutRef} → Handed m [] m
  more :
      {m next last : LogicalMutRef} {later : List LogicalSlice} (size : ℕ)
      (piece memory : LogicalSlice)
      → try_consume_bytes m size size ≡ ok (some (piece, memory), next)
      → Handed next later last
      → Handed m (piece ∷ later) last

-- What one piece takes, and what it leaves.
record Cut (m : LogicalMutRef) (size : ℕ) (piece memory : LogicalSlice) (next : LogicalMutRef)
    : Type 0 where
  start : piece.offset ≡ m.slice.offset
  width : piece.len ≡ size
  own : memory ≡ piece
  fits : size ≤ m.slice.len
  rest_start : next.slice.offset ≡ m.slice.offset + size
  rest_len : next.slice.len + size ≡ m.slice.len
  tight : IsTight next

-- The same of a result.
abbrev ResultCut :
    LogicalMutRef → ℕ → Result (Option (LogicalSlice × LogicalSlice) × LogicalMutRef) → Type 0
ResultCut m size (ok (some (piece, memory), next)) = Cut m size piece memory next
ResultCut m size _ = Unit

try_consume_bytes-Cut :
    (m next : LogicalMutRef) (size : ℕ) (piece memory : LogicalSlice)
    → IsTight m
    → try_consume_bytes m size size ≡ ok (some (piece, memory), next)
    → Cut m size piece memory next
unfolding try_consume_bytes split_at
try_consume_bytes-Cut m next size piece memory t e = elim (Bool-cases (ltb m.slice.len size)) [
  | inl short ↦ ground (arith, short)
  | inr fits ↦
      let taken : try_consume_bytes m size size
          ≡ ok (
            some (new_slice m.slice.offset size, new_slice m.region.offset size),
            record {
              region = new_slice (m.region.offset + size) (m.region.len - size);
              slice = new_slice (m.slice.offset + size) (m.slice.len - size);
            },
          ) =
        ground (arith, fits, t.same_offset, t.same_len, t.addressed) in
      subst (ResultCut m size) (sym taken ∙ e) record {
        start = refl;
        width = refl;
        own = ap (λ (o : ℕ). new_slice o size) t.same_offset;
        fits = ground (arith, fits);
        rest_start = refl;
        rest_len = ground (arith, fits);
        tight = record {
          same_offset = ap (λ (o : ℕ). o + size) t.same_offset;
          same_len = ap (λ (o : ℕ). o - size) t.same_len;
          addressed = ground (arith, fits, t.addressed);
        };
      }
]

-- Two slices share no address.
abbrev pub Apart : LogicalSlice → LogicalSlice → Type 0
Apart s t = (s.offset + s.len ≤ t.offset) ⊎ (t.offset + t.len ≤ s.offset)

abbrev pub AllApart : List LogicalSlice → Type 0
AllApart [] = Unit
AllApart (s ∷ later) = All (Apart s) later × AllApart later

-- The slice lies inside the other one.
abbrev pub Inside : LogicalSlice → LogicalSlice → Type 0
Inside s t = (t.offset ≤ s.offset) × (s.offset + s.len ≤ t.offset + t.len)

-- The pieces that try_consume_bytes hands out one after the other, of exactly the sizes asked for,
-- from a page whose memory is that of its slice and ends below 2^64, all lie inside what was left
-- of the page, and no two of them share an address.
pub Handed-AllApart :
    (m last : LogicalMutRef) (pieces : List LogicalSlice)
    → IsTight m
    → Handed m pieces last
    → All (λ p. Inside p m.slice) pieces × AllApart pieces
Handed-AllApart m last [] t nothing = (tt, tt)
Handed-AllApart m last (p ∷ later) t (more {next = next} size _ memory e rest) =
    let c = try_consume_bytes-Cut m next size p memory t e in
    let below = Handed-AllApart next last later c.tight rest in
    (
      (
        (omega (arith, c.start), omega (arith, c.start, c.width, c.fits)),
        All-map
            (λ q h. (omega (arith, h, c.rest_start), omega (arith, h, c.rest_start, c.rest_len)))
            later below.0,
      ),
      (
        All-map (λ q h. inl (omega (arith, h, c.start, c.width, c.rest_start))) later below.0,
        below.1,
      ),
    )
