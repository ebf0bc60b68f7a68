-- ===== src/Tx/Stocked/Blocked.antt =====
-- A transaction that starts while another one has an uncommitted copy of the object.
use librarius.Prelude.{ℕ, suc, ◌≡◌, arith, some, List, ◌∷◌}
use librarius.Error.{err, tx_aborted}
use librarius.Source.{Source, Page}
use librarius.Source.Contract.{Addressable}
use librarius.Las.Slice.{new_slice}
use librarius.Las.Space.{LogicalAddressSpace}
use librarius.Las.Space.Fresh.{page_slice, whole_page}
use librarius.Vos.Place.{Place, cell, local, load}
use librarius.Vos.Place.Words.{load_lem}
use librarius.Vos.Version.{version_size}
use librarius.Vos.Version.Slot.{indirect}
use librarius.Vos.Object.{ObjectSize}
use librarius.Vos.Alloc.Copied.{rest_of}
use librarius.Vos.Alloc.Fresh.{SlotMade, own_slot, new_indirect_version-fresh}
use librarius.Vos.Reader.History.{read_object-first}
use librarius.Vos.Reader.Chain.{Chain-History}
use librarius.Vos.Store.{Versioned}
use librarius.Tx.{new_transaction, write_version, write}
use librarius.Tx.Stocked.{Usable-TwoPages, part_apart}
use librarius.Tx.Stocked.Pending.{Pending, Pending-Frame}

module _ {S : Type 0} ⦃src : Source S⦄ (arr : Addressable S) (k base : ℕ) (size : ObjectSize)
    (c q : ℕ) (vos : Versioned S) (root : Place) (page next : Page) (rest : List Page)
    (content : List ℕ) (behind : ℕ)
    (x : Pending arr k base size c q vos (page ∷ next ∷ rest) content behind) where
  -- The write fails, and leaves a slot behind that no copy has.
  pub record Blocked (fuel : ℕ) : Type 0 where
    pub las_after : LogicalAddressSpace S
    pub run : write (suc fuel) (cell c) size (new_transaction vos root) ≡ (
      err tx_aborted,
      record (new_transaction vos root) {
        vos = record vos { las = las_after };
        log_active = some (rest_of (whole_page arr k base page) version_size);
        version = some (indirect (own_slot arr k base vos.las page next rest));
      },
    )
    pub pending :
        Pending arr k base size c q (record vos { las = las_after }) (next ∷ rest) content behind

  pub write-Blocked : (fuel : ℕ) → Blocked fuel
  unfolding write write_version load new_transaction
  write-Blocked fuel =
      let made : SlotMade arr k base vos.las page next rest =
        new_indirect_version-fresh arr k base vos.las page next rest
          (Usable-TwoPages arr k base size c vos.las page next rest x.stock x.usable) in
      let slot = own_slot arr k base vos.las page next rest in
      let (y, same) =
        Pending-Frame arr k base size c q vos page (next ∷ rest) content behind made.las_after slot
          x made.frame
          (λ u.
            part_apart arr k base size c (page_slice arr k base page) (new_slice slot 8) u
              (omega arith) (omega (arith, x.usable.0)))
          made.stock in
      record {
        las_after = made.las_after;
        run = ground (
          arith,
          made.run,
          y.uncommitted,
          same,
          load_lem arr k c x.pointer x.pointed,
          read_object-first made.las_after size vos.version fuel (local y.pointer)
              (y.own ∷ y.others)
              (Chain-History arr k made.las_after size (local y.pointer) (y.own ∷ y.others)
                y.copies.0),
        );
        pending = y;
      }
