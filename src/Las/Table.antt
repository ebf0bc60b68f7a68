-- ===== src/Las/Table.antt =====
-- The ordered map from base addresses (`BTreeMap`) and the hash map of backings, as lists of
-- entries; the ordered one is kept in the order of its keys.
pub mod Laws
use librarius.Prelude.{
  ℕ, suc, Bool, Option, none, some, List, [], ◌∷◌, ◌&&◌, ltb, leb, ◌==◌, if◌then◌else◌,
}

abbrev pub Table : Type 0 → Type 0
Table V = List (ℕ × V)

module _ {V : Type 0} where
  -- `insert`: an entry of the same key is replaced.
  unfoldable pub insert : ℕ → V → Table V → Table V
  insert k v [] = (k, v) ∷ []
  insert k v ((j, w) ∷ t) =
      if ltb k j then (k, v) ∷ (j, w) ∷ t else if k == j then (k, v) ∷ t else (j, w) ∷ insert k v t

  -- `get`
  unfoldable pub lookup : ℕ → Table V → Option V
  lookup k [] = none
  lookup k ((j, w) ∷ t) = if k == j then some w else lookup k t

  -- The entry of a key that is there, with a new value.
  unfoldable pub replace : ℕ → V → Table V → Table V
  replace k v [] = []
  replace k v ((j, w) ∷ t) = if k == j then (j, v) ∷ t else (j, w) ∷ replace k v t

  later_entry : (ℕ × V) → Option (ℕ × V) → Option (ℕ × V)
  later_entry e none = some e
  later_entry e (some f) = some f

  -- `range((Included(&0), Included(&k))).next_back()`: the last entry whose key is at most `k`.
  unfoldable pub floor : ℕ → Table V → Option (ℕ × V)
  unfolding later_entry
  floor k [] = none
  floor k ((j, w) ∷ t) = let rest = floor k t in if leb j k then later_entry (j, w) rest else rest

  -- `iter().next_back()`
  unfoldable pub last_entry : Table V → Option (ℕ × V)
  unfolding later_entry
  last_entry [] = none
  last_entry (e ∷ t) = later_entry e (last_entry t)

  -- `range(start..stop).count()`
  unfoldable pub count_range : ℕ → ℕ → Table V → ℕ
  count_range start stop [] = 0
  count_range start stop ((j, w) ∷ t) =
      let rest = count_range start stop t in if leb start j && ltb j stop then suc rest else rest

  -- `iter().find(f)`
  unfoldable pub find : (V → Bool) → Table V → Option (ℕ × V)
  find f [] = none
  find f ((j, w) ∷ t) = if f w then some (j, w) else find f t
