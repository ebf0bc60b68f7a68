-- ===== src/Vos/Reader/History.antt =====
-- `VersionedReader::read` on an object whose copies are in memory: which of them it returns.
use librarius.Prelude.{
  ℕ, zero, suc, ◌<◌, ◌≤◌, ◌≡◌, refl, ap, arith, Bool, true, false, not, ltb, leb, ◌==◌, ◌||◌, All,
  All-map, subst, List, [], ◌∷◌, length, drop, Option, none, some, if◌then◌else◌, ◌⊎◌, inl, inr,
  Bool-cases, Option-cases, ◌∙◌,
}
use librarius.Usize.{wrapping_add}
use librarius.Error.{Result, ok, err, invalid_logical_address, tx_aborted}
use librarius.Source.{Source}
use librarius.Las.Slice.{LogicalSlice, byte}
use librarius.Las.Space.{LogicalAddressSpace}
use librarius.Las.Space
use librarius.Vos.Pointer.{UntypedPointer, is_some, into_stored_slice_offset}
use librarius.Vos.Place.{Place, cell, load}
use librarius.Vos.Version.{read_number}
use librarius.Vos.Object.{ObjectSize, total, object_header_size, other_offset, header_from_slice}
use librarius.Vos.Reader.{Found, version_fuel, visit, read_object}

-- A copy of an object: the number of its version, and what a read of it returns.
pub record Copy : Type 0 where
  pub number : ℕ
  pub found : Found

-- The copy is committed, and not after the snapshot.
abbrev pub visible : ℕ → Copy → Bool
visible snapshot c = not ((c.number == 0) || ltb snapshot c.number)

abbrev pub first_visible : ℕ → List Copy → Option Copy
first_visible snapshot [] = none
first_visible snapshot (c ∷ older) =
    if visible snapshot c then some c else first_visible snapshot older

-- What a reader that passes over invisible copies returns, and one that must not.
abbrev pub seen : Option Copy → Result Found
seen none = err invalid_logical_address
seen (some c) = ok c.found

abbrev pub seen_first : ℕ → List Copy → Result Found
seen_first snapshot [] = err invalid_logical_address
seen_first snapshot (c ∷ older) = if visible snapshot c then ok c.found else err tx_aborted

module _ {S : Type 0} ⦃src : Source S⦄ where
  -- The copies of an object in memory, from the newest, which the pointer at a place leads to, to
  -- the oldest, which has no other copy.
  pub data History (las : LogicalAddressSpace S) (size : ObjectSize)
      : Place → List Copy → Type 0 where
    ended :
        {place : Place} (p : UntypedPointer)
        → load place las ≡ (ok p, las)
        → is_some p ≡ false
        → History las size place []
    before :
        {place : Place} {older : List Copy} (p : UntypedPointer) (s : LogicalSlice) (bytes : List ℕ)
        (number : ℕ)
        → load place las ≡ (ok p, las)
        → is_some p ≡ true
        → into_stored_slice_offset p (total size) object_header_size ≡ byte s
        → Space.read s las ≡ (ok bytes, las)
        → leb object_header_size (length bytes) ≡ true
        → read_number version_fuel (header_from_slice bytes).version las ≡ (ok number, las)
        → History las size (cell (wrapping_add s.offset other_offset)) older
        → History las size place (
            record {
              number = number;
              found = record {
                userdata = drop object_header_size bytes;
                place = place;
                header = s.offset;
              };
            }
            ∷ older)

  -- With fuel for every copy, a read returns the newest copy that the snapshot sees; when there is
  -- none, the error is that of an empty pointer. It changes nothing.
  pub read_object_lem :
      (las : LogicalAddressSpace S) (size : ObjectSize) (snapshot fuel : ℕ) (place : Place)
      (copies : List Copy)
      → length copies < fuel
      → History las size place copies
      → read_object fuel snapshot place size false las ≡ (seen (first_visible snapshot copies), las)
  unfolding read_object visit
  read_object_lem las size snapshot zero place copies enough h = ground arith
  read_object_lem las size snapshot (suc fuel) place [] enough (ended p loaded empty) =
      ground (arith, loaded, empty)
  read_object_lem las size snapshot (suc fuel) place (c ∷ older) enough
        (before p s bytes n loaded there kind stored long number rest) =
      ground (
        arith,
        loaded,
        there,
        kind,
        stored,
        long,
        number,
        read_object_lem las size snapshot fuel (cell (wrapping_add s.offset other_offset)) older
            (omega arith) rest,
      )

  pub read_object-first :
      (las : LogicalAddressSpace S) (size : ObjectSize) (snapshot fuel : ℕ) (place : Place)
      (copies : List Copy)
      → History las size place copies
      → read_object (suc fuel) snapshot place size true las ≡ (seen_first snapshot copies, las)
  unfolding read_object visit
  read_object-first las size snapshot fuel place [] (ended p loaded empty) =
      ground (arith, loaded, empty)
  read_object-first las size snapshot fuel place (c ∷ older)
        (before p s bytes n loaded there kind stored long number rest) =
      ground (arith, loaded, there, kind, stored, long, number)

-- Committed versions descend along the copies. Copies that are not committed yet stand in between.
abbrev pub Descends : List Copy → Type 0
Descends [] = Unit
Descends (c ∷ older) = All (λ d. (c.number ≡ 0) ⊎ (d.number ≤ c.number)) older × Descends older

-- The copy is one of the list.
abbrev pub IsAmong : Copy → List Copy → Type 0
IsAmong c [] = ⊥
IsAmong c (d ∷ copies) = (c ≡ d) ⊎ IsAmong c copies

-- The copy is one of them, committed by the snapshot, and every visible copy is as old or older.
abbrev pub IsNewest : ℕ → List Copy → Copy → Type 0
IsNewest snapshot copies c =
    IsAmong c copies
    × (0 < c.number)
    × (c.number ≤ snapshot)
    × All (λ d. (visible snapshot d ≡ false) ⊎ (d.number ≤ c.number)) copies

visible_bounds :
    (snapshot : ℕ) (c : Copy) → visible snapshot c ≡ true → (0 < c.number) × (c.number ≤ snapshot)
visible_bounds snapshot c shown = (ground (arith, shown), ground (arith, shown))

-- Along descending versions, the copy that is seen is the newest one that may be.
pub first_visible-IsNewest :
    (snapshot : ℕ) (copies : List Copy) (c : Copy)
    → Descends copies
    → first_visible snapshot copies ≡ some c
    → IsNewest snapshot copies c
first_visible-IsNewest snapshot [] c descends first = cc first
first_visible-IsNewest snapshot (d ∷ older) c descends first =
    elim (Bool-cases (visible snapshot d)) [
      | inl shown ↦
          let same : d ≡ c = cc (first, shown) in
          let (low, high) = visible_bounds snapshot d shown in
          subst (IsNewest snapshot (d ∷ older)) same (
            inl refl,
            low,
            high,
            (inr (omega arith), All-map (λ y h. bounded y low h) older descends.0),
          )
      | inr hidden ↦
          let (among, low, high, rest) =
            first_visible-IsNewest snapshot older c descends.1 (ground (arith, first, hidden)) in
          (inr among, low, high, (inl hidden, rest))
    ]
  where
    bounded :
        (y : Copy)
        → 0 < d.number
        → (d.number ≡ 0) ⊎ (y.number ≤ d.number)
        → (visible snapshot y ≡ false) ⊎ (y.number ≤ d.number)
    bounded y low (inl none_yet) = absurd (ground arith)
    bounded y low (inr older_yet) = inr older_yet

first_visible-none :
    (snapshot : ℕ) (copies : List Copy)
    → first_visible snapshot copies ≡ none
    → All (λ d. visible snapshot d ≡ false) copies
first_visible-none snapshot [] nothing = tt
first_visible-none snapshot (d ∷ older) nothing = elim (Bool-cases (visible snapshot d)) [
  | inl shown ↦ cc (nothing, shown)
  | inr hidden ↦ (hidden, first_visible-none snapshot older (ground (arith, nothing, hidden)))
]

module _ {S : Type 0} ⦃src : Source S⦄ where
  -- With more fuel than an object in memory has copies, when their committed versions descend from
  -- new to old, a read as of a snapshot returns one of the object's copies, committed by the
  -- snapshot, such that no copy the snapshot sees is newer, or, if it sees none, the error
  -- invalid_logical_address; the address space does not change.
  pub read_object-snapshot :
      (las : LogicalAddressSpace S) (size : ObjectSize) (snapshot fuel : ℕ) (place : Place)
      (copies : List Copy)
      → length copies < fuel
      → History las size place copies
      → Descends copies
      → ((c : Copy) × (read_object fuel snapshot place size false las ≡ (ok c.found, las))
          × IsNewest snapshot copies c)
        ⊎ ((read_object fuel snapshot place size false las ≡ (err invalid_logical_address, las))
            × All (λ d. visible snapshot d ≡ false) copies)
  read_object-snapshot las size snapshot fuel place copies enough h descends =
      elim (Option-cases (first_visible snapshot copies)) [
        | inl nothing ↦ inr (
          read_object_lem las size snapshot fuel place copies enough h
              ∙ ap (λ o. (seen o, las)) nothing,
          first_visible-none snapshot copies nothing,
        )
        | inr (c, first) ↦ inl (
          c,
          read_object_lem las size snapshot fuel place copies enough h
              ∙ ap (λ o. (seen o, las)) first,
          first_visible-IsNewest snapshot copies c descends first,
        )
      ]
