-- ===== src/Tx/Race.antt =====
-- Two transactions that write one object: what the second one's `write` gives while the first one is
-- running and after it has committed.
use librarius.Prelude.{ℕ, suc, ◌+◌, ◌≤◌, ◌<◌, ◌≡◌, refl, sym, subst, arith, false, some, List, ◌∷◌}
use librarius.Error.{Result, ok, err, tx_aborted}
use librarius.Source.{Source}
use librarius.Source.Contract.{Addressable}
use librarius.Las.Space.{LogicalAddressSpace}
use librarius.Las.Space.Memory.{read-Holds}
use librarius.Vos.Pointer.Words.{address_space}
use librarius.Vos.Place.{cell, local, load}
use librarius.Vos.Place.Words.{Word, load_lem}
use librarius.Vos.Version.{Version}
use librarius.Vos.Version.Words.{direct_space}
use librarius.Vos.Version.Slot.{indirect}
use librarius.Vos.Object.{ObjectSize, other_offset, header_from_slice}
use librarius.Vos.Reader.History.{Copy, visible, before}
use librarius.Vos.Reader.Chain.{
  Chain, Numbered, link, direct, in_slot, PlaceHolds-load, Numbered-read_number, Chain-History,
}
use librarius.Las.Slice.{new_slice}
use librarius.Las.Space.Memory.{Disjoint}
use librarius.Vos.Reader.Chain.Publish.{Near, AllBeside, HeadIs, SlotIs, Chain-Reread}
use librarius.Usize.{wrapping_add}
use librarius.Tx.{Transaction, write, commit}
use librarius.Tx.Validate.{Versions, any_above}
use librarius.Tx.Commit.{commit-publishes}
use librarius.Tx.Conflict.{write-tx_aborted}

module _ {S : Type 0} ⦃src : Source S⦄ (arr : Addressable S) (k : ℕ) where
  -- A write to an object whose newest copy in memory the transaction does not see.
  Chain-write :
      (u : Transaction S) (size : ObjectSize) (fuel c : ℕ) (version : Version) (copy : Copy)
      (older : List Copy)
      → u.version ≡ some version
      → Chain arr k u.vos.las size (cell c) (copy ∷ older)
      → visible u.snapshot copy ≡ false
      → (write (suc fuel) (cell c) size u).0 ≡ err tx_aborted
  unfolding load
  Chain-write u size fuel c version copy older begun
        (link p s base bytes number x there kind held long num rest) hidden =
      let las = u.vos.las in
      let e =
        write-tx_aborted u size fuel (cell c) p version
          (record copy { found = record (copy.found) { place = local p } }) older begun
          (PlaceHolds-load arr k las (cell c) p x)
          (before p s bytes number refl there kind (read-Holds arr las s k base bytes held) long
            (Numbered-read_number arr k las _ number num)
            (Chain-History arr k las size (cell (wrapping_add s.offset other_offset)) older rest))
          hidden in
      ground (arith, e)

  SlotIs-number :
      (las : LogicalAddressSpace S) (p v n : ℕ) (num : Numbered arr k las v n)
      → Word arr k las p 0
      → SlotIs arr k p num
      → n ≡ 0
  SlotIs-number las p _ n (direct _ small) slot own = absurd (omega (arith, own))
  SlotIs-number las p _ n (in_slot r _ hr hn w) slot own =
      let w' = subst (λ (y : ℕ). Word arr k las y n) own w in
      ground (arith, load_lem arr k p n w', load_lem arr k p 0 slot)

  -- The newest copy is not committed while its slot holds 0.
  HeadIs-number :
      (las : LogicalAddressSpace S) (size : ObjectSize) (p c : ℕ) (copy : Copy) (older : List Copy)
      (chain : Chain arr k las size (cell c) (copy ∷ older))
      → Word arr k las p 0
      → HeadIs arr k p chain
      → copy.number ≡ 0
  HeadIs-number las size p c copy older (link q s base bytes number x there kind held long num rest)
        slot own =
      SlotIs-number las p (header_from_slice bytes).version number num slot own

  -- While a transaction has an uncommitted copy in front of an object's copies in memory, each of
  -- whose versions has its slot or stands apart from it, and after its commit, which succeeds,
  -- with its slot below 2^54 that holds 0, a next count below 2^63 and a read set none of whose
  -- versions is above 0: a write of the object by any transaction that has its version, and whose
  -- snapshot is at most the count from before the commit, fails with tx_aborted, so that no update
  -- is lost.
  pub write-commit :
      (t u : Transaction S) (p c fuel : ℕ) (ns : List ℕ) (version : Version) (size : ObjectSize)
      (copy : Copy) (older : List Copy) (chain : Chain arr k t.vos.las size (cell c) (copy ∷ older))
      → t.version ≡ some (indirect p)
      → t.vos.version + 1 < direct_space
      → p < address_space
      → Word arr k t.vos.las p 0
      → Versions t.vos.las t.readset ns
      → any_above 0 ns ≡ false
      → AllBeside arr k p chain
      → HeadIs arr k p chain
      → u.version ≡ some version
      → u.snapshot ≤ t.vos.version
      → ((write (suc fuel) (cell c) size (record u { vos = t.vos })).0 ≡ err tx_aborted)
        × ((commit t).0 ≡ ok tt)
        × ((write (suc fuel) (cell c) size (record u { vos = (commit t).1.vos })).0
            ≡ err tx_aborted)
  write-commit t u p c fuel ns version size copy older chain begun small placed slot versions clear
        beside own ready old =
      let (las', run, number, stored) =
        commit-publishes arr k t p ns begun small placed slot versions clear in
      let r =
        Chain-Reread arr k p t.vos.las las' (t.vos.version + 1) small slot stored
          (Disjoint (new_slice p 8)) (Near arr k p) size (cell c) (copy ∷ older) chain beside in
      let (d, rest, is, numbered) = r.own_head own in
      let none_yet = HeadIs-number t.vos.las size p c copy older chain slot own in
      let (committed, late) =
        subst
          (λ (x : Result (Unit {0}) × Transaction S).
            (x.0 ≡ ok tt)
            × ((write (suc fuel) (cell c) size (record u { vos = x.1.vos })).0 ≡ err tx_aborted))
          (sym run)
          (
            refl,
            Chain-write (record u { vos = record { las = las'; version = t.vos.version + 1 } }) size
                fuel c version d rest ready
                (subst (Chain arr k las' size (cell c)) is r.chain_after)
                (ground (arith, numbered, old)),
          ) in
      (
        Chain-write (record u { vos = t.vos }) size fuel c version copy older ready chain
            (ground (arith, none_yet)),
        committed,
        late,
      )
