-- ===== src/Prelude/Buffer.antt =====
-- Memory as a function from offsets to bytes: the bytes of a range, a write of a buffer, and
-- little-endian numbers.
use Prim.Native.Nat.{ℕ, zero, suc, ◌+◌, ◌*◌, ◌/◌, ◌%◌, ◌^◌, ◌≤◌, ◌<◌}
use mathlib.Core.Path.{◌≡◌, refl, ap₂, ap, ◌∙◌}
use mathlib.Core.Logic.{◌⊎◌}
use mathlib.Core.List.{List, [], ◌∷◌}
use native.Mathlib.Omega.{arith}
use librarius.Prelude.Tests.{◌==◌, if◌then◌else◌}
use librarius.Prelude.Lists.{length}

abbrev pub Bytes : Type 0
Bytes = ℕ → ℕ

-- `&mem[off..off + n]`
unfoldable pub slice : Bytes → ℕ → ℕ → List ℕ
slice m off zero = []
slice m off (suc n) = m off ∷ slice m (suc off) n

-- `mem[off..off + data.len()].copy_from_slice(data)`
unfoldable pub store : Bytes → ℕ → List ℕ → Bytes
store m off [] i = m i
store m off (b ∷ bs) i = if i == off then b else store m (suc off) bs i

pub length-slice : (m : Bytes) (off n : ℕ) → length (slice m off n) ≡ n
unfolding slice
length-slice m off zero = refl
length-slice m off (suc n) = ap suc (length-slice m (suc off) n)

-- Two memories that agree on the range have the same bytes there.
pub slice_congr :
    (m m' : Bytes) (off n : ℕ)
    → ((i : ℕ) → off ≤ i → i < off + n → m i ≡ m' i)
    → slice m off n ≡ slice m' off n
unfolding slice
slice_congr m m' off zero same = refl
slice_congr m m' off (suc n) same =
    ap₂ ◌∷◌ (same off (omega arith) (omega arith))
      (slice_congr m m' (suc off) n λ i p q. same i (omega arith) (omega arith))

pub store_outside :
    (m : Bytes) (off : ℕ) (bs : List ℕ) (i : ℕ)
    → ((i < off) ⊎ (off + length bs ≤ i))
    → store m off bs i ≡ m i
unfolding store
store_outside m off [] i h = refl
store_outside m off (b ∷ bs) i h = ground (arith, store_outside m (suc off) bs i)

pub slice-store_self :
    (m : Bytes) (off : ℕ) (bs : List ℕ) → slice (store m off bs) off (length bs) ≡ bs
unfolding slice store
slice-store_self m off [] = refl
slice-store_self m off (b ∷ bs) = ap₂ ◌∷◌ (ground arith) (
    slice_congr _ (store m (suc off) bs) (suc off) (length bs) (λ i p q. ground arith)
    ∙ slice-store_self m (suc off) bs)

pub slice-store_disjoint :
    (m : Bytes) (off : ℕ) (bs : List ℕ) (a n : ℕ)
    → ((a + n ≤ off) ⊎ (off + length bs ≤ a))
    → slice (store m off bs) a n ≡ slice m a n
slice-store_disjoint m off bs a n h =
    slice_congr _ m a n λ i p q. store_outside m off bs i (omega arith)

-- A number as `width` bytes, the lowest first.
unfoldable pub le_bytes : ℕ → ℕ → List ℕ
le_bytes zero v = []
le_bytes (suc width) v = v % 256 ∷ le_bytes width (v / 256)

unfoldable pub le_value : List ℕ → ℕ
le_value [] = 0
le_value (b ∷ bs) = b + 256 * le_value bs

pub length-le_bytes : (width v : ℕ) → length (le_bytes width v) ≡ width
unfolding le_bytes
length-le_bytes zero v = refl
length-le_bytes (suc width) v = ap suc (length-le_bytes width (v / 256))

pub le_value-le_bytes : (width v : ℕ) → v < 256 ^ width → le_value (le_bytes width v) ≡ v
unfolding le_bytes le_value
le_value-le_bytes zero v h = omega arith
le_value-le_bytes (suc width) v h =
    omega (arith, le_value-le_bytes width (v / 256) (omega (arith, ◌^◌)))
