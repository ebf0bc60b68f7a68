-- ===== src/Prelude/Splice.antt =====
-- Parts of a slice, and a write of a buffer of which only a part is new.
use Prim.Native.Nat.{ℕ, zero, suc, ◌+◌, ◌-◌, ◌≤◌, ◌<◌}
use mathlib.Core.Path.{◌≡◌, refl, sym, ap, ap₂, fun_ext, ◌∙◌}
use mathlib.Core.Logic.{inl}
use mathlib.Core.List.{List, [], ◌∷◌, ◌++◌}
use native.Mathlib.Omega.{arith}
use librarius.Prelude.Tests.{◌==◌, if◌then◌else◌}
use librarius.Prelude.Lists.{length, take, drop}
use librarius.Prelude.Buffer.{Bytes, slice, store, store_outside, length-slice}

pub take-slice : (m : Bytes) (o k n : ℕ) → k ≤ n → take k (slice m o n) ≡ slice m o k
unfolding slice
take-slice m o zero n h = refl
take-slice m o (suc k) zero h = absurd (omega arith)
take-slice m o (suc k) (suc n) h = ap (λ t. m o ∷ t) (take-slice m (suc o) k n (omega arith))

pub same_slice : (m : Bytes) (o o' n n' : ℕ) → o ≡ o' → n ≡ n' → slice m o n ≡ slice m o' n'
same_slice m o o' n n' p q = ap₂ (slice m) p q

pub slice-append : (m : Bytes) (o n k : ℕ) → slice m o (n + k) ≡ slice m o n ++ slice m (o + n) k
unfolding slice
slice-append m o zero k = same_slice m o (o + 0) (0 + k) k (omega arith) (omega arith)
slice-append m o (suc n) k =
    let e : suc n + k ≡ suc (n + k) = omega arith in
    ap (slice m o) e
    ∙ ap (λ (xs : List ℕ). m o ∷ xs)
        (slice-append m (suc o) n k
          ∙ ap (λ (xs : List ℕ). slice m (suc o) n ++ xs)
              (same_slice m (suc o + n) (o + suc n) k k (omega arith) refl))

pub drop-slice : (m : Bytes) (o k n : ℕ) → k ≤ n → drop k (slice m o n) ≡ slice m (o + k) (n - k)
unfolding slice
drop-slice m o zero n h = same_slice m _ _ _ _ (omega arith) (omega arith)
drop-slice m o (suc k) zero h = absurd (omega arith)
drop-slice m o (suc k) (suc n) h =
    drop-slice m (suc o) k n (omega arith) ∙ same_slice m _ _ _ _ (omega arith) (omega arith)

store-append :
    (m : Bytes) (o : ℕ) (xs ys : List ℕ) (i : ℕ)
    → store m o (xs ++ ys) i ≡ store (store m (o + length xs) ys) o xs i
unfolding store
store-append m o [] ys i = let e : o ≡ o + 0 = omega arith in ap (λ (t : ℕ). store m t ys i) e
store-append m o (x ∷ xs) ys i =
    let e : suc o + length xs ≡ o + suc (length xs) = omega arith in
    ap (λ (t : ℕ). if i == o then x else t)
      (store-append m (suc o) xs ys i ∙ ap (λ (t : ℕ). store (store m t ys) (suc o) xs i) e)

-- Writing back bytes that are there changes nothing.
store-slice_same :
    (m g : Bytes) (o n : ℕ)
    → ((i : ℕ) → o ≤ i → i < o + n → g i ≡ m i)
    → (i : ℕ) → store m o (slice g o n) i ≡ m i
unfolding store slice
store-slice_same m g o zero same i = refl
store-slice_same m g o (suc n) same i =
    ground (
      arith,
      store-slice_same m g (suc o) n (λ j p q. same j (omega arith) (omega arith)) i,
      same i,
    )

module _ (m : Bytes) (o n start : ℕ) (new : List ℕ) (h : start + length new ≤ n) where
  -- What stands behind the new part, as a slice of the memory.
  abbrev behind : List ℕ
  behind = slice m (o + start + length new) (n - (start + length new))

  drop-behind : drop (start + length new) (slice m o n) ≡ behind
  drop-behind = drop-slice m o (start + length new) n h ∙ same_slice m _ _ _ _ (omega arith) refl

  store-behind : store m (o + start) (new ++ behind) ≡ store m (o + start) new
  store-behind = fun_ext λ i.
      store-append m (o + start) new behind i
      ∙ ap (λ (g : Bytes). store g (o + start) new i)
          (fun_ext (store-slice_same m m (o + start + length new) _ (λ j p q. refl)))

  -- A buffer read from the memory, with a part of it replaced and written back, writes that part.
  pub store-splice :
      store m o (take start (slice m o n) ++ (new ++ drop (start + length new) (slice m o n)))
      ≡ store m (o + start) new
  store-splice =
      ap₂ (λ xs ys. store m o (xs ++ (new ++ ys))) (take-slice m o start n (omega arith))
        drop-behind
      ∙ fun_ext λ i.
        store-append m o (slice m o start) (new ++ behind) i
        ∙ ap (λ (a : ℕ). store (store m (o + a) (new ++ behind)) o (slice m o start) i)
            (length-slice m o start)
        ∙ ap (λ (g : Bytes). store g o (slice m o start) i) store-behind
        ∙ store-slice_same (store m (o + start) new) m o start
            (λ j p q. sym (store_outside m (o + start) new j (inl q))) i
