-- ===== src/Vos/Store/Publish.antt =====
-- What `commit_version` does to the counter and to the version that it publishes.
use librarius.Prelude.{ℕ, ◌+◌, ◌<◌, ◌≡◌, arith}
use librarius.Error.{Error, ok, err, Action}
use librarius.Source.{Source}
use librarius.Source.Contract.{Addressable}
use librarius.Las.Space.{LogicalAddressSpace}
use librarius.Vos.Pointer.Words.{address_space}
use librarius.Vos.Place.Words.{Word, Stored}
use librarius.Vos.Version.{read_number}
use librarius.Vos.Version.Words.{direct_space}
use librarius.Vos.Version.Slot.{indirect, read_number-indirect, commit-indirect}
use librarius.Vos.Store.{Versioned, commit_version}

module _ {S : Type 0} ⦃src : Source S⦄ where
  -- The counter has gone up and nothing else has changed.
  abbrev pub counted : Versioned S → Versioned S
  counted v = record v { version = v.version + 1 }

  -- When the validation fails and the next count is below 2^63, commit_version of an indirect
  -- version gives the validation's error and the state in which the validation, run with the
  -- counter already raised, ends: nothing is stored after it.
  pub commit_version-refused :
      (v after : Versioned S) (p : ℕ) (validate : Action (Versioned S) (Unit {0})) (e : Error)
      → v.version + 1 < direct_space
      → validate (counted v) ≡ (err e, after)
      → commit_version (indirect p) validate v ≡ (err e, after)
  unfolding commit_version
  commit_version-refused v after p validate e small refused = ground (arith, refused)

  module _ (arr : Addressable S) (k : ℕ) where
    -- When the validation accepts without a change, the slot is below 2^54 and its number and the
    -- next count are below 2^63, commit_version of an indirect version raises the counter by one,
    -- the version then reads as the new count, and every word and slice apart from its slot is
    -- kept.
    pub commit_version-accepted :
        (v : Versioned S) (p n : ℕ) (validate : Action (Versioned S) (Unit {0}))
        → v.version + 1 < direct_space
        → p < address_space
        → n < direct_space
        → Word arr k v.las p n
        → validate (counted v) ≡ (ok tt, counted v)
        → (las' : LogicalAddressSpace S) × (commit_version (indirect p) validate v
            ≡ (ok tt, record { las = las'; version = v.version + 1 }))
          × (read_number 2 (indirect p) las' ≡ (ok (v.version + 1), las'))
          × Stored arr k v.las las' p (v.version + 1)
    unfolding commit_version
    commit_version-accepted v p n validate small hp hn w accepted =
        let (las', run, stored) = commit-indirect arr k p n (v.version + 1) hp hn small w in
        (
          las',
          ground (arith, accepted, run),
          read_number-indirect arr k p (v.version + 1) hp small stored.here,
          stored,
        )
