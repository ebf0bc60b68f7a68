-- ===== src/Tx/Validate.antt =====
-- The validation of a read set against the versions that its objects now have.
use librarius.Prelude.{ℕ, ◌≡◌, refl, arith, Bool, false, ltb, ◌||◌, List, [], ◌∷◌, if◌then◌else◌}
use librarius.Error.{tx_aborted, ok, err}
use librarius.Source.{Source}
use librarius.Las.Space.{LogicalAddressSpace}
use librarius.Vos.Place.{Place, cell, load}
use librarius.Vos.Version.{Version, read_number, newer}
use librarius.Vos.Reader.{read_version, version_fuel}
use librarius.Tx.{validate}

-- Some number of the list is above the bound.
abbrev pub any_above : ℕ → List ℕ → Bool
any_above m [] = false
any_above m (n ∷ ns) = ltb m n || any_above m ns

module _ {S : Type 0} ⦃src : Source S⦄ where
  -- The objects behind the pointers of a read set have these version numbers.
  pub data Versions (las : LogicalAddressSpace S) : List Place → List ℕ → Type 0 where
    done : Versions las [] []
    also :
        {place : Place} {rest : List Place} {ns : List ℕ} (a v n : ℕ)
        → read_version place las ≡ (ok a, las)
        → load (cell a) las ≡ (ok v, las)
        → read_number version_fuel v las ≡ (ok n, las)
        → Versions las rest ns
        → Versions las (place ∷ rest) (n ∷ ns)

  newer_lem :
      (las : LogicalAddressSpace S) (other own : Version) (n m : ℕ)
      → read_number version_fuel other las ≡ (ok n, las)
      → read_number version_fuel own las ≡ (ok m, las)
      → newer version_fuel other own las ≡ (ok (ltb m n), las)
  unfolding newer
  newer_lem las other own n m ho hm = ground (arith, ho, hm)

  -- The validation of a read set whose objects have readable versions fails with tx_aborted when
  -- some object's number is above the number of the transaction's own version, succeeds otherwise,
  -- and changes nothing.
  pub validate_lem :
      (las : LogicalAddressSpace S) (version : Version) (m : ℕ) (readset : List Place) (ns : List ℕ)
      → read_number version_fuel version las ≡ (ok m, las)
      → Versions las readset ns
      → validate version readset las ≡ (if any_above m ns then err tx_aborted else ok tt, las)
  unfolding validate
  validate_lem las version m [] [] own done = refl
  validate_lem las version m [] (n ∷ ns) own none_left = elim none_left [ ]
  validate_lem las version m (place ∷ rest) [] own none_left = elim none_left [ ]
  validate_lem las version m (place ∷ rest) (n ∷ ns) own (also a v _ ha hv hn more) = ground (
    arith,
    ha,
    hv,
    newer_lem las v version n m hn own,
    validate_lem las version m rest ns own more,
  )
