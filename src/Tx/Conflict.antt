-- ===== src/Tx/Conflict.antt =====
-- `Transaction::write` and `Transaction::read_for_write` of an object whose newest copy the
-- transaction does not see.
use librarius.Prelude.{ℕ, suc, ◌≡◌, false, some, List, ◌∷◌, arith}
use librarius.Error.{tx_aborted, ok, err}
use librarius.Source.{Source}
use librarius.Vos.Place.{Place, local, load}
use librarius.Vos.Version.{Version}
use librarius.Vos.Object.{ObjectSize}
use librarius.Vos.Reader.History.{Copy, History, visible, read_object-first}
use librarius.Tx.{Transaction, write, write_version}

module _ {S : Type 0} ⦃src : Source S⦄ (t : Transaction S) (size : ObjectSize) (fuel : ℕ) where
  pub write-tx_aborted :
      (place : Place) (p : ℕ) (version : Version) (c : Copy) (older : List Copy)
      → t.version ≡ some version
      → load place t.vos.las ≡ (ok p, t.vos.las)
      → History t.vos.las size (local p) (c ∷ older)
      → visible t.snapshot c ≡ false
      → write (suc fuel) place size t ≡ (err tx_aborted, t)
  unfolding write write_version
  write-tx_aborted place p version c older begun loaded h hidden = ground (
    arith,
    begun,
    loaded,
    hidden,
    read_object-first t.vos.las size t.snapshot fuel (local p) (c ∷ older) h,
  )
