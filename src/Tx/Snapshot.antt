-- ===== src/Tx/Snapshot.antt =====
-- What the readers of an object see before and after a commit that its copies take part in.
use librarius.Prelude.{
  ℕ, ◌+◌, ◌≤◌, ◌<◌, ◌≡◌, refl, sym, ap, subst, ◌∙◌, arith, false, some, List, ◌∷◌, length,
}
use librarius.Error.{Result, ok}
use librarius.Source.{Source}
use librarius.Source.Contract.{Addressable}
use librarius.Las.Space.{LogicalAddressSpace}
use librarius.Vos.Pointer.Words.{address_space}
use librarius.Vos.Place.{Place}
use librarius.Vos.Place.Words.{Word}
use librarius.Vos.Version.Words.{direct_space}
use librarius.Vos.Version.Slot.{indirect}
use librarius.Vos.Object.{ObjectSize}
use librarius.Vos.Reader.{Found, read_object}
use librarius.Vos.Reader.History.{Copy, first_visible, seen, read_object_lem}
use librarius.Vos.Reader.Chain.{Chain, Chain-History}
use librarius.Las.Slice.{new_slice}
use librarius.Las.Space.Memory.{Disjoint}
use librarius.Vos.Reader.Chain.Publish.{
  Near, Republished, Republished-length, Republished-seen, Republished-found, AllBeside, HeadIs,
  Chain-Reread,
}
use librarius.Tx.{Transaction, commit}
use librarius.Tx.Validate.{Versions, any_above}
use librarius.Tx.Commit.{commit-publishes}

module _ {S : Type 0} ⦃src : Source S⦄ (arr : Addressable S) (k : ℕ) where
  -- What a read of the copies in memory gives.
  pub Chain-read_object :
      (las : LogicalAddressSpace S) (size : ObjectSize) (snapshot fuel : ℕ) (place : Place)
      (copies : List Copy)
      → length copies < fuel
      → Chain arr k las size place copies
      → (read_object fuel snapshot place size false las).0 ≡ seen (first_visible snapshot copies)
  Chain-read_object las size snapshot fuel place copies enough chain =
      ap (λ (x : Result Found × LogicalAddressSpace S). x.0)
        (read_object_lem las size snapshot fuel place copies enough
          (Chain-History arr k las size place copies chain))

  module _ (t : Transaction S) (p : ℕ) (ns : List ℕ) (begun : t.version ≡ some (indirect p))
      (small : t.vos.version + 1 < direct_space) (placed : p < address_space)
      (slot : Word arr k t.vos.las p 0) (versions : Versions t.vos.las t.readset ns)
      (clear : any_above 0 ns ≡ false) (size : ObjectSize) (place : Place) (snapshot fuel : ℕ) where
    -- With an own version slot below 2^54 that holds 0, a next count below 2^63, and a read set of
    -- readable versions none of which is above 0: the commit succeeds, and a read of an object in
    -- memory, each of whose copies has that slot or stands apart from it, as of a snapshot that is
    -- at most the count from before gives the same after the commit as before it.
    pub commit-snapshot :
        (copies : List Copy) (chain : Chain arr k t.vos.las size place copies)
        → AllBeside arr k p chain
        → length copies < fuel
        → snapshot ≤ t.vos.version
        → ((commit t).0 ≡ ok tt)
          × ((read_object fuel snapshot place size false (commit t).1.vos.las).0
              ≡ (read_object fuel snapshot place size false t.vos.las).0)
    commit-snapshot copies chain beside enough old =
        let (las', run, number, stored) =
          commit-publishes arr k t p ns begun small placed slot versions clear in
        let r =
          Chain-Reread arr k p t.vos.las las' (t.vos.version + 1) small slot stored
            (Disjoint (new_slice p 8)) (Near arr k p) size place copies chain beside in
        let same_length = Republished-length (t.vos.version + 1) copies r.after r.republished in
        subst
          (λ (x : Result (Unit {0}) × Transaction S).
            (x.0 ≡ ok tt)
            × ((read_object fuel snapshot place size false x.1.vos.las).0
                ≡ (read_object fuel snapshot place size false t.vos.las).0))
          (sym run)
          (
            refl,
            Chain-read_object las' size snapshot fuel place r.after
                  (omega (arith, same_length, enough)) r.chain_after
                ∙ sym (
                    Republished-seen (t.vos.version + 1) snapshot copies r.after
                      (omega (arith, old)) r.republished)
                ∙ sym (Chain-read_object t.vos.las size snapshot fuel place copies enough chain),
          )

    -- With an own version slot below 2^54 that holds 0, a next count below 2^63, and a read set of
    -- readable versions none of which is above 0: the commit succeeds, and a read of an object in
    -- memory whose newest copy has that slot, and each of whose other copies has it or stands
    -- apart from it, as of a snapshot above the count from before gives the newest copy.
    pub commit-visible :
        (c : Copy) (older : List Copy) (chain : Chain arr k t.vos.las size place (c ∷ older))
        → AllBeside arr k p chain
        → HeadIs arr k p chain
        → length (c ∷ older) < fuel
        → t.vos.version < snapshot
        → ((commit t).0 ≡ ok tt)
          × ((read_object fuel snapshot place size false (commit t).1.vos.las).0 ≡ ok c.found)
    commit-visible c older chain beside own enough late =
        let (las', run, number, stored) =
          commit-publishes arr k t p ns begun small placed slot versions clear in
        let r =
          Chain-Reread arr k p t.vos.las las' (t.vos.version + 1) small slot stored
            (Disjoint (new_slice p 8)) (Near arr k p) size place (c ∷ older) chain beside in
        let (d, rest, is, numbered) = r.own_head own in
        let same_length =
          Republished-length (t.vos.version + 1) (c ∷ older) r.after r.republished in
        let found =
          Republished-found (t.vos.version + 1) c d older rest
            (subst (Republished (t.vos.version + 1) (c ∷ older)) is r.republished) in
        subst
          (λ (x : Result (Unit {0}) × Transaction S).
            (x.0 ≡ ok tt)
            × ((read_object fuel snapshot place size false x.1.vos.las).0 ≡ ok c.found))
          (sym run)
          (
            refl,
            Chain-read_object las' size snapshot fuel place r.after
                  (omega (arith, same_length, enough)) r.chain_after
                ∙ ap (λ (l : List Copy). seen (first_visible snapshot l)) is
                ∙ ground (arith, numbered, late, found),
          )
