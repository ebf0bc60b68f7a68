-- ===== src/Tx/Write/Commit.antt =====
-- The commit of a write whose new copy its owner has filled, and what the readers see then.
use librarius.Prelude.{ℕ, ◌+◌, ◌≤◌, ◌<◌, ◌≡◌, refl, sym, subst, ◌∙◌, arith, List, [], length}
use librarius.Error.{ok}
use librarius.Source.{Source}
use librarius.Source.Contract.{Addressable}
use librarius.Source.Allocator.{SourceAllocator}
use librarius.Las.MutRef.{LogicalMutRef}
use librarius.Las.Space.{LogicalAddressSpace}
use librarius.Vos.Place.{cell}
use librarius.Vos.Version.Words.{direct_space}
use librarius.Vos.Object.{ObjectSize, total}
use librarius.Vos.Reader.History.{Copy}
use librarius.Vos.Reader.Chain.Fill.{Filled, Placed-Filled}
use librarius.Tx.{Transaction, read, commit}
use librarius.Tx.Validate.{Versions, done}
use librarius.Tx.Snapshot.{commit-snapshot, commit-visible}
use librarius.Tx.Write.{Writable, Made, Made-Chain, made_copies, written_to}
use librarius.Tx.Write.Seen.{userdata_of, read_lem, Made-read}

module _ {S : Type 0} ⦃src : Source S⦄ (arr : Addressable S) (k base : ℕ) (a : SourceAllocator S)
    (t : Transaction S) (m : LogicalMutRef) (size : ObjectSize) (q p c : ℕ) (h : Copy)
    (older : List Copy) (w : Writable arr k base a t m size q p c h older) where
  -- The owner fills the new copy.
  pub Made-Filled :
      (las' : LogicalAddressSpace S) (userdata content : List ℕ)
      → Made arr k base a t m size q p c las' userdata
      → length content ≡ total size
      → (f : Filled arr k las' m.slice.offset size q p (cell c) userdata content) × Made arr k base
          a t m size q p c f.las_after content
  Made-Filled las' userdata content x same_length =
      let f =
        Placed-Filled arr k las' m.slice.offset size q p (cell c) userdata content x.placed
          w.positive same_length w.apart in
      (
        f,
        record {
          placed = f.placed;
          frame = λ u b bytes off held. f.frame u b bytes off.0 (x.frame u b bytes off held);
          stocks = λ start pages s. f.stocks start pages (x.stocks start pages s);
        },
      )

  module _ (las' : LogicalAddressSpace S) (content : List ℕ)
      (made : Made arr k base a t m size q p c las' content)
      (small : t.vos.version + 1 < direct_space) (unread : t.readset ≡ []) (u : Transaction S)
      (fuel : ℕ) (enough : length older + 2 < fuel) where
    abbrev after_write : Transaction S
    after_write = written_to arr k base a t m size q p c las'

    no-Versions : Versions las' t.readset []
    no-Versions = subst (λ ps. Versions las' ps []) (sym unread) done

    pub Made-later :
        t.vos.version < u.snapshot
        → ((commit after_write).0 ≡ ok tt)
          × ((read fuel (cell c) size (record u { vos = (commit after_write).1.vos })).0
              ≡ ok content)
    unfolding userdata_of
    Made-later late =
        let (chain, own, beside) =
          Made-Chain arr k base a t m size q p c h older w las' content made in
        let (committed, found) =
          commit-visible arr k after_write q [] w.begun small w.slot_placed made.placed.slot
            no-Versions refl size (cell c) u.snapshot fuel _ _ chain beside own
            (omega (arith, enough)) late in
        (
          committed,
          read_lem (record u { vos = (commit after_write).1.vos }) fuel (cell c) size _ found,
        )

    pub Made-earlier :
        u.snapshot ≤ t.vos.version
        → ((commit after_write).0 ≡ ok tt)
          × ((read fuel (cell c) size (record u { vos = (commit after_write).1.vos })).0
              ≡ (read fuel (cell c) size (record u { vos = t.vos })).0)
    Made-earlier old =
        let (chain, own, beside) =
          Made-Chain arr k base a t m size q p c h older w las' content made in
        let (committed, same) =
          commit-snapshot arr k after_write q [] w.begun small w.slot_placed made.placed.slot
            no-Versions refl size (cell c) u.snapshot fuel
            (made_copies arr k base a t m size q p c content h older) chain beside
            (omega (arith, enough)) old in
        (
          committed,
          read_lem (record u { vos = (commit after_write).1.vos }) fuel (cell c) size _ same
              ∙ sym (
                  read_lem (record u { vos = record (t.vos) { las = las' } }) fuel (cell c) size _
                    refl)
              ∙ Made-read arr k base a t m size q p c h older w las' content u fuel made enough,
        )
