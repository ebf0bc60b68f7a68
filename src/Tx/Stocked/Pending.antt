-- ===== src/Tx/Stocked/Pending.antt =====
-- A database with an uncommitted copy in front of the copies of the object: its commit, and a
-- transaction that meets it.
use librarius.Prelude.{
  ℕ, ◌+◌, ◌<◌, ◌≡◌, refl, sym, ap, subst, ◌∙◌, arith, some, List, [], ◌∷◌, length, All,
}
use librarius.Error.{ok}
use librarius.Source.{Source, Page}
use librarius.Source.Contract.{Addressable}
use librarius.Las.Slice.{LogicalSlice, new_slice}
use librarius.Las.Space.{LogicalAddressSpace}
use librarius.Las.Space.Memory.{Disjoint}
use librarius.Las.Space.Stock.{Stock}
use librarius.Las.Space.Fresh.{page_slice}
use librarius.Vos.Pointer.Words.{address_space}
use librarius.Vos.Place.{Place, local}
use librarius.Vos.Place.Words.{Word}
use librarius.Vos.Version.Words.{direct_space}
use librarius.Vos.Version.Slot.{indirect}
use librarius.Vos.Object.{ObjectSize}
use librarius.Vos.Reader.History.{Copy}
use librarius.Vos.Reader.Chain.{Chain, Numbered, direct, in_slot, last, link}
use librarius.Vos.Reader.Chain.Along.{OnSlot, Along-map}
use librarius.Vos.Reader.Chain.Frame.{Frame, Frame-Word, Frame-Chain, Frame-Numbered, Avoids}
use librarius.Vos.Reader.Chain.Publish.{
  Near, HeadIs, SlotIs, Republished, Republished-length, Republished-found, Chain-Reread,
}
use librarius.Vos.Reader.Chain.Moved.{Tracked, Along-Frame}
use librarius.Vos.Store.{Versioned}
use librarius.Tx.{Transaction, commit}
use librarius.Tx.Validate.{Versions, done}
use librarius.Tx.Commit.{over, commit-publishes}
use librarius.Tx.Stocked.{Stocked, Usable, Clear, ClearSlot}

module _ {S : Type 0} ⦃src : Source S⦄ (arr : Addressable S) (k base : ℕ) (size : ObjectSize)
    (c q : ℕ) where
  -- A slice apart from the cell, from the free pages and from the slot.
  abbrev pub Free : List Page → LogicalSlice → Type 0
  Free pages u = Clear arr k base size c pages u × Disjoint (new_slice q 8) u

  -- The slot, or one apart from it, in both cases apart from the cell and from the free pages.
  abbrev pub FreeSlot : List Page → ℕ → Type 0
  FreeSlot pages r = ClearSlot arr k base size c pages r × Near arr k q r

  -- The newest copy of the object has the slot at `q`, which holds 0.
  pub record Pending (vos : Versioned S) (pages : List Page) (content : List ℕ) (behind : ℕ)
      : Type 0 where
    pub pointer : ℕ
    pub pointed : Word arr k vos.las c pointer
    pub pointer_placed : pointer < address_space
    pub own : Copy
    pub others : List Copy
    pub userdata : own.found.userdata ≡ content
    pub uncommitted : own.number ≡ 0
    pub count : length others ≡ behind
    pub copies :
        Tracked arr k (Free pages) (FreeSlot pages) vos.las size (local pointer) (own ∷ others)
    pub head : HeadIs arr k q copies.0
    pub slot : Word arr k vos.las q 0
    pub slot_placed : q < address_space
    pub cell_apart : All (λ p. Disjoint (page_slice arr k base p) (new_slice c 8)) pages
    pub slot_cell : Disjoint (new_slice q 8) (new_slice c 8)
    pub slot_apart : All (λ p. Disjoint (page_slice arr k base p) (new_slice q 8)) pages
    pub stock : Stock arr k base vos.las pages
    pub usable : Usable arr k base size c pages

  module _ (vos : Versioned S) (pages : List Page) (content : List ℕ) (behind : ℕ)
      (x : Pending vos pages content behind) (small : vos.version + 1 < direct_space)
      (t : Transaction S) (begun : t.version ≡ some (indirect q)) (unread : t.readset ≡ []) where
    abbrev pub committer : Transaction S
    committer = record t { vos = vos }

    -- The commit of the transaction whose copy it is.
    pub record Published : Type 0 where
      pub las_after : LogicalAddressSpace S
      pub run : commit committer ≡ (ok tt, over arr k committer las_after (vos.version + 1))
      pub newest : Copy
      pub older : List Copy
      pub userdata : newest.found.userdata ≡ content
      pub count : length older ≡ behind
      pub stocked :
          Stocked arr k base size c
            (record { las = las_after; version = vos.version + 1 })
            pages
            newest
            older

    pub Pending-Published : Published
    Pending-Published =
        let P = Clear arr k base size c pages in
        let V = ClearSlot arr k base size c pages in
        let place = local x.pointer in
        let (chain, along) = x.copies in
        let (las', run, number, stored) =
          commit-publishes arr k committer q [] begun small x.slot_placed x.slot
            (subst (λ ps. Versions vos.las ps []) (sym unread) done) refl in
        let r =
          Chain-Reread arr k q vos.las las' (vos.version + 1) small x.slot stored P V size place
            (x.own ∷ x.others) chain
            (Along-map arr k (Free pages) (Disjoint (new_slice q 8)) (FreeSlot pages) (Near arr k q)
              vos.las size place (x.own ∷ x.others) chain (λ u e. e.1) (λ s e. e.1) along) in
        let (newest, older, is, numbered) = r.own_head x.head in
        let tracked : Tracked arr k P V las' size place r.after = (
          r.chain_after,
          r.along_after (
              Along-map arr k (Free pages) P (FreeSlot pages) V vos.las size place
                (x.own ∷ x.others) chain (λ u e. e.0) (λ s e. e.0) along),
        ) in
        let found =
          Republished-found (vos.version + 1) x.own newest x.others older
            (subst (Republished (vos.version + 1) (x.own ∷ x.others)) is r.republished) in
        let same_length =
          Republished-length (vos.version + 1) (x.own ∷ x.others) r.after r.republished in
        record {
          las_after = las';
          run = run;
          newest = newest;
          older = older;
          userdata = ap (λ f. f.userdata) found ∙ x.userdata;
          count = omega (arith, same_length, ap length is, x.count);
          stocked = record {
            pointer = x.pointer;
            pointed =
                Frame-Word arr k (Disjoint (new_slice q 8)) vos.las las' c x.pointer
                  (λ u b bytes apart held. stored.slices u b bytes apart held) x.slot_cell
                  x.pointed;
            pointer_placed = x.pointer_placed;
            copies = subst (Tracked arr k P V las' size place) is tracked;
            cell_apart = x.cell_apart;
            committed = (omega (arith, numbered), omega (arith, numbered));
            stock = stored.stocks base pages x.stock;
            usable = x.usable;
          };
        }

  SlotIs-Frame :
      (Q : LogicalSlice → Type 0) (las las' : LogicalAddressSpace S) (v n : ℕ)
      (frame : Frame arr k Q las las') (num : Numbered arr k las v n)
      (off : OnSlot arr k (λ p. Q (new_slice p 8)) num)
      → SlotIs arr k q num
      → SlotIs arr k q (Frame-Numbered arr k Q las las' v n frame num off)
  unfolding Frame-Numbered
  SlotIs-Frame Q las las' _ n frame (direct _ h) off e = e
  SlotIs-Frame Q las las' _ n frame (in_slot p _ hp hn w) off e = e

  HeadIs-Frame :
      (Q : LogicalSlice → Type 0) (las las' : LogicalAddressSpace S) (place : Place)
      (copies : List Copy) (frame : Frame arr k Q las las')
      (chain : Chain arr k las size place copies) (off : Avoids arr k Q chain)
      → HeadIs arr k q chain
      → HeadIs arr k q (Frame-Chain arr k Q las las' size place copies frame chain off)
  unfolding Frame-Chain
  HeadIs-Frame Q las las' place [] frame (last p w h) off e = e
  HeadIs-Frame Q las las' place (d ∷ older) frame
        (link p s b bytes number w there kind held long num rest) off e =
      SlotIs-Frame Q las las' _ number frame num off.2 e

  -- The free pages are fewer, and what stands apart from a slice is kept.
  pub Pending-Frame :
      (vos : Versioned S) (page : Page) (pages : List Page) (content : List ℕ) (behind : ℕ)
      (las' : LogicalAddressSpace S) (s : ℕ) (x : Pending vos (page ∷ pages) content behind)
      → Frame arr k (Disjoint (new_slice s 8)) vos.las las'
      → ((u : LogicalSlice) → Disjoint (page_slice arr k base page) u → Disjoint (new_slice s 8) u)
      → Stock arr k base las' pages
      → (y : Pending (record vos { las = las' }) pages content behind) × (y.pointer ≡ x.pointer)
  Pending-Frame vos page pages content behind las' s x frame within stock =
      let Q : LogicalSlice → Type 0 = Disjoint (new_slice s 8) in
      let (chain, along) = x.copies in
      let off =
        Along-map arr k (Free (page ∷ pages)) Q (FreeSlot (page ∷ pages)) (λ r. Q (new_slice r 8))
          vos.las size (local x.pointer) (x.own ∷ x.others) chain (λ u e. within u e.0.1.0)
          (λ r e. within (new_slice r 8) e.0.1.0) along in
      let fewer =
        Along-map arr k (Free (page ∷ pages)) (Free pages) (FreeSlot (page ∷ pages))
          (FreeSlot pages) vos.las size (local x.pointer) (x.own ∷ x.others) chain
          (λ u e. ((e.0.0, e.0.1.1), e.1)) (λ r e. ((e.0.0, e.0.1.1), e.1)) along in
      (
        record {
          pointer = x.pointer;
          pointed =
              Frame-Word arr k Q vos.las las' c x.pointer frame
                (within (new_slice c 8) x.cell_apart.0) x.pointed;
          pointer_placed = x.pointer_placed;
          own = x.own;
          others = x.others;
          userdata = x.userdata;
          uncommitted = x.uncommitted;
          count = x.count;
          copies = (
            Frame-Chain arr k Q vos.las las' size (local x.pointer) (x.own ∷ x.others) frame chain
                off,
            Along-Frame arr k (Free pages) (FreeSlot pages) Q vos.las las' size (local x.pointer)
                (x.own ∷ x.others) frame chain off fewer,
          );
          head =
              HeadIs-Frame Q vos.las las' (local x.pointer) (x.own ∷ x.others) frame chain off
                x.head;
          slot =
              Frame-Word arr k Q vos.las las' q 0 frame (within (new_slice q 8) x.slot_apart.0)
                x.slot;
          slot_placed = x.slot_placed;
          cell_apart = x.cell_apart.1;
          slot_cell = x.slot_cell;
          slot_apart = x.slot_apart.1;
          stock = stock;
          usable = x.usable.3;
        },
        refl,
      )
