-- ===== src/Tx/Stocked/Seen.antt =====
-- What a transaction that starts on the database reads.
use librarius.Prelude.{ℕ, ◌+◌, ◌<◌, ◌≡◌, ◌∙◌, arith, List, ◌∷◌, length}
use librarius.Error.{ok}
use librarius.Source.{Source, Page}
use librarius.Source.Contract.{Addressable}
use librarius.Vos.Place.{Place, cell, local}
use librarius.Vos.Object.{ObjectSize}
use librarius.Vos.Reader.History.{Copy}
use librarius.Vos.Reader.Chain.Along.{Along-map}
use librarius.Vos.Reader.Chain.Moved.{Tracked-moved}
use librarius.Vos.Store.{Versioned}
use librarius.Tx.{new_transaction, read}
use librarius.Tx.Snapshot.{Chain-read_object}
use librarius.Tx.Write.Seen.{userdata_of, read_lem}
use librarius.Tx.Stocked.{Stocked, Clear, ClearSlot}

module _ {S : Type 0} ⦃src : Source S⦄ (arr : Addressable S) (k base : ℕ) (size : ObjectSize)
    (c : ℕ) where
  pub Stocked-read :
      (vos : Versioned S) (root : Place) (pages : List Page) (h : Copy) (older : List Copy)
      (fuel : ℕ)
      → Stocked arr k base size c vos pages h older
      → length older + 1 < fuel
      → (read fuel (cell c) size (new_transaction vos root)).0 ≡ ok h.found.userdata
  unfolding userdata_of new_transaction
  Stocked-read vos root pages h older fuel x enough =
      let (chain, _) =
        Tracked-moved arr k (λ _. Unit {0}) (λ _. Unit {0}) vos.las size x.pointer (cell c)
          (h ∷ older) x.pointed tt
          (
            x.copies.0,
            Along-map arr k (Clear arr k base size c pages) (λ _. Unit {0})
                (ClearSlot arr k base size c pages) (λ _. Unit {0}) vos.las size (local x.pointer)
                (h ∷ older) x.copies.0 (λ _ _. tt) (λ _ _. tt) x.copies.1,
          ) in
      let found =
        Chain-read_object arr k vos.las size vos.version fuel (cell c) _ (omega (arith, enough))
          chain in
      read_lem (new_transaction vos root) fuel (cell c) size _ found ∙ ground (arith, x.committed)
