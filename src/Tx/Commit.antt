-- ===== src/Tx/Commit.antt =====
-- `Transaction::commit` of a transaction that has written, on each outcome of the validation.
use librarius.Prelude.{ℕ, ◌+◌, ◌<◌, ◌≡◌, arith, true, false, some, List}
use librarius.Error.{tx_aborted, ok, err}
use librarius.Source.{Source}
use librarius.Source.Contract.{Addressable}
use librarius.Las.Space.{LogicalAddressSpace}
use librarius.Vos.Pointer.Words.{address_space}
use librarius.Vos.Place.Words.{Word, Stored}
use librarius.Vos.Version.{read_number}
use librarius.Vos.Version.Words.{direct_space}
use librarius.Vos.Version.Slot.{indirect, read_number-indirect}
use librarius.Vos.Store.{on_space}
use librarius.Vos.Store.Publish.{counted, commit_version-accepted, commit_version-refused}
use librarius.Tx.{Transaction, validate, abort, commit}
use librarius.Tx.Validate.{Versions, any_above, validate_lem}
use librarius.Tx.Writes.{AllPerformed, Restored, rollback_all_lem}

module _ {S : Type 0} ⦃src : Source S⦄ (arr : Addressable S) (k : ℕ) where
  -- The transaction over another state of the store.
  abbrev pub over : Transaction S → LogicalAddressSpace S → ℕ → Transaction S
  over t las number = record t { vos = record { las = las; version = number } }

  -- The abort of a transaction whose writes have been performed, on words that share no byte,
  -- succeeds, changes no other part of the transaction than the address space, gives each written
  -- word its old pointer back and keeps every word apart from them.
  pub abort_lem :
      (t : Transaction S)
      → AllPerformed arr k t.vos.las t.writeset
      → (las' : LogicalAddressSpace S) × (abort t ≡ (ok tt, over t las' t.vos.version))
        × Restored arr k t.vos.las las' t.writeset
  unfolding abort
  abort_lem t done =
      let (las', run, restored) = rollback_all_lem arr k t.writeset t.vos.las done in
      (las', ground (arith, run), restored)

  module _ (t : Transaction S) (p : ℕ) (ns : List ℕ) (begun : t.version ≡ some (indirect p))
      (small : t.vos.version + 1 < direct_space) (placed : p < address_space)
      (slot : Word arr k t.vos.las p 0) (versions : Versions t.vos.las t.readset ns) where
    own : read_number 2 (indirect p) t.vos.las ≡ (ok 0, t.vos.las)
    own = read_number-indirect arr k p 0 placed (omega arith) slot

    -- With an own version slot below 2^54 that holds 0, a next count below 2^63, and a read set of
    -- readable versions one of which is above 0, the commit of a transaction fails with
    -- tx_aborted, raises the counter by one, and, where its writes have been performed on words
    -- apart, gives each written word its old pointer back and keeps the words apart from them.
    pub commit-conflict :
        any_above 0 ns ≡ true
        → AllPerformed arr k t.vos.las t.writeset
        → (las' : LogicalAddressSpace S) × (commit t
            ≡ (err tx_aborted, over t las' (t.vos.version + 1)))
          × Restored arr k t.vos.las las' t.writeset
    unfolding commit
    commit-conflict conflict done =
        let refused =
          commit_version-refused t.vos (counted t.vos) p
            (on_space (validate (indirect p) t.readset)) tx_aborted small
            (ground
              (arith, validate_lem t.vos.las (indirect p) 0 t.readset ns own versions, conflict)) in
        let (las', run, restored) = abort_lem (over t t.vos.las (t.vos.version + 1)) done in
        (las', ground (arith, begun, refused, run), restored)

    -- With an own version slot below 2^54 that holds 0, a next count below 2^63, and a read set of
    -- readable versions none of which is above 0, the commit of a transaction succeeds, raises the
    -- counter by one, and leaves the slot with the new count, every word and slice apart from the
    -- slot as it was.
    pub commit-publishes :
        any_above 0 ns ≡ false
        → (las' : LogicalAddressSpace S) × (commit t ≡ (ok tt, over t las' (t.vos.version + 1)))
          × (read_number 2 (indirect p) las' ≡ (ok (t.vos.version + 1), las'))
          × Stored arr k t.vos.las las' p (t.vos.version + 1)
    unfolding commit
    commit-publishes clear =
        let (las', run, number, stored) =
          commit_version-accepted arr k t.vos p 0 (on_space (validate (indirect p) t.readset)) small
            placed (omega arith) slot
            (ground
              (arith, validate_lem t.vos.las (indirect p) 0 t.readset ns own versions, clear)) in
        (las', ground (arith, begun, run), number, stored)
