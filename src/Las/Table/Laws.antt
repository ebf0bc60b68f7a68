-- ===== src/Las/Table/Laws.antt =====
-- The ordered map: its order of keys, and `floor` and `lookup` after an entry is replaced.
use librarius.Prelude.{
  ℕ, ◌≤◌, ◌<◌, ◌≡◌, ◌≢◌, refl, sym, Bool, true, eq→==, ne→==, inl, inr, none, some, [], ◌∷◌, ◌==◌,
  arith, All, if◌then◌else◌, Option-cases, Bool-cases,
}
use librarius.Las.Table.{Table, lookup, replace, floor, find, later_entry}

module _ {V : Type 0} where
  -- The keys grow along the list.
  abbrev pub Ordered : Table V → Type 0
  Ordered [] = Unit
  Ordered ((j, w) ∷ t) = All (λ e. j < e.0) t × Ordered t

  key_above : (i b : ℕ) (x : V) (t : Table V) → All (λ e. i < e.0) t → lookup b t ≡ some x → i < b
  unfolding lookup
  key_above i b x [] h e = cc
  key_above i b x ((j, w) ∷ t) h e = ground (arith, key_above i b x t h.1)

  replace_keys :
      (i k : ℕ) (v : V) (t : Table V) → All (λ e. i < e.0) t → All (λ e. i < e.0) (replace k v t)
  unfolding replace
  replace_keys i k v [] h = tt
  replace_keys i k v ((j, w) ∷ t) h = elim (Bool-cases (k == j)) [
    | inl e ↦ rw e h
    | inr e ↦ rw e (h.0, replace_keys i k v t h.1)
  ]

  pub replace-Ordered : (k : ℕ) (v : V) (t : Table V) → Ordered t → Ordered (replace k v t)
  unfolding replace
  replace-Ordered k v [] h = tt
  replace-Ordered k v ((j, w) ∷ t) h = elim (Bool-cases (k == j)) [
    | inl e ↦ rw e h
    | inr e ↦ rw e (replace_keys j k v t h.0, replace-Ordered k v t h.1)
  ]

  -- The entry that `floor` finds is in the map, and its key is at most the one asked for.
  pub floor-lookup :
      (k : ℕ) (t : Table V) {b : ℕ} {x : V}
      → Ordered t
      → floor k t ≡ some (b, x)
      → (lookup b t ≡ some x) × (b ≤ k)
  unfolding lookup floor later_entry
  floor-lookup k [] h e = absurd (cc)
  floor-lookup k ((j, w) ∷ t) {b} {x} h e = elim (Option-cases (floor k t)) [
    | inl none_there ↦ ground arith
    | inr (f, found) ↦
        ground (arith, floor-lookup k t {b = f.0} {x = f.1} h.1 found, key_above j f.0 f.1 t h.0)
  ]

  pub lookup-replace :
      (j k : ℕ) (v w : V) (t : Table V)
      → lookup k t ≡ some w
      → lookup j (replace k v t) ≡ (if j == k then some v else lookup j t)
  unfolding lookup replace
  lookup-replace j k v w [] h = cc
  lookup-replace j k v w ((i, x) ∷ t) h = ground (arith, lookup-replace j k v w t)

  floor-replace-none :
      (a k : ℕ) (v : V) (t : Table V) → floor a t ≡ none → floor a (replace k v t) ≡ none
  unfolding floor replace later_entry
  floor-replace-none a k v [] h = refl
  floor-replace-none a k v ((j, w) ∷ t) h = elim (Option-cases (floor a t)) [
    | inl none_there ↦ ground (arith, floor-replace-none a k v t)
    | inr (f, found) ↦ ground arith
  ]

  pub floor-replace :
      (a k : ℕ) (v : V) (t : Table V) {b : ℕ} {x : V}
      → Ordered t
      → floor a t ≡ some (b, x)
      → floor a (replace k v t) ≡ some (b, if b == k then v else x)
  unfolding floor replace later_entry
  floor-replace a k v [] h e = absurd (cc)
  floor-replace a k v ((j, w) ∷ t) {b} {x} h e = elim (Option-cases (floor a t)) [
    | inl none_there ↦ ground (arith, floor-replace-none a k v t)
    | inr (f, found) ↦ ground (
      arith,
      floor-replace a k v t {b = f.0} {x = f.1} h.1 found,
      floor-lookup a t {b = f.0} {x = f.1} h.1 found,
      key_above j f.0 f.1 t h.0,
    )
  ]

  found_above :
      (f : V → Bool) (i k : ℕ) (v : V) (t : Table V)
      → All (λ e. i < e.0) t
      → find f t ≡ some (k, v)
      → i < k
  unfolding find
  found_above f i k v [] h e = cc e
  found_above f i k v ((j, w) ∷ t) h e = elim (Bool-cases (f w)) [
    | inl yes_ ↦ let key : j ≡ k = ground (arith, e, yes_) in omega (arith, key, h.0)
    | inr no_ ↦ found_above f i k v t h.1 (ground (arith, e, no_))
  ]

  -- The entry that `find` finds, with another value that the test holds of.
  pub find-replace :
      (f : V → Bool) (k : ℕ) (v new : V) (t : Table V)
      → Ordered t
      → find f t ≡ some (k, v)
      → f new ≡ true
      → find f (replace k new t) ≡ some (k, new)
  unfolding find replace
  find-replace f k v new [] o e h = cc e
  find-replace f k v new ((j, w) ∷ t) o e h = elim (Bool-cases (f w)) [
    | inl yes_ ↦
        let key : j ≡ k = ground (arith, e, yes_) in ground (arith, key, h, eq→== k j (sym key))
    | inr no_ ↦
        let rest : find f t ≡ some (k, v) = ground (arith, e, no_) in
        let above = found_above f j k v t o.0 rest in
        ground (
          arith,
          no_,
          above,
          ne→== k j (λ q. absurd (omega (arith, above, q))),
          find-replace f k v new t o.1 rest h,
        )
  ]

  pub find-lookup :
      (f : V → Bool) (k : ℕ) (v : V) (t : Table V)
      → Ordered t
      → find f t ≡ some (k, v)
      → lookup k t ≡ some v
  unfolding find lookup
  find-lookup f k v [] o e = cc e
  find-lookup f k v ((j, w) ∷ t) o e = elim (Bool-cases (f w)) [
    | inl yes_ ↦
        let key : j ≡ k = ground (arith, e, yes_) in ground (arith, e, yes_, eq→== k j (sym key))
    | inr no_ ↦
        let rest : find f t ≡ some (k, v) = ground (arith, e, no_) in
        let above = found_above f j k v t o.0 rest in
        ground
          (arith, ne→== k j (λ q. absurd (omega (arith, above, q))), find-lookup f k v t o.1 rest)
  ]

  -- The entry that `find` finds, when another one changes that the test holds of as before.
  pub find-replace_other :
      (f : V → Bool) (k j : ℕ) (v w new : V) (t : Table V)
      → Ordered t
      → find f t ≡ some (k, v)
      → lookup j t ≡ some w
      → f w ≡ true
      → f new ≡ true
      → k ≢ j
      → find f (replace j new t) ≡ some (k, v)
  unfolding find replace lookup
  find-replace_other f k j v w new [] o e there h h' ne = cc e
  find-replace_other f k j v w new ((i, x) ∷ t) o e there h h' ne = elim (Bool-cases (j == i)) [
    | inl at ↦
        let same : x ≡ w = ground (arith, there, at) in
        let key : i ≡ k = ground (arith, e, h, same) in absurd (ne (ground (arith, key, at)))
    | inr off ↦ elim (Bool-cases (f x)) [
      | inl yes_ ↦ ground (arith, e, yes_, off)
      | inr no_ ↦ ground (
        arith,
        off,
        no_,
        find-replace_other f k j v w new t o.1 (ground (arith, e, no_)) (ground (arith, there, off))
            h h' ne,
      )
    ]
  ]
