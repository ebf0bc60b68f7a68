-- ===== src/Tx/Stocked/Undone.antt =====
-- A transaction on the database that has written the object and aborts: the database afterwards.
use librarius.Prelude.{ℕ, ◌+◌, ◌<◌, ◌≡◌, refl, List, ◌∷◌}
use librarius.Error.{ok}
use librarius.Source.{Source, Page}
use librarius.Source.Contract.{Addressable}
use librarius.Las.Slice.{LogicalSlice, new_slice}
use librarius.Las.Space.{LogicalAddressSpace}
use librarius.Las.Space.Fresh.{whole_page}
use librarius.Vos.Place.{Place, local}
use librarius.Vos.Version.Words.{direct_space}
use librarius.Vos.Object.{ObjectSize}
use librarius.Vos.Reader.History.{Copy}
use librarius.Vos.Reader.Chain.Along.{Along-map}
use librarius.Vos.Reader.Chain.Moved.{Tracked-Frame}
use librarius.Vos.Store.{Versioned}
use librarius.Tx.{abort}
use librarius.Tx.Commit.{over}
use librarius.Tx.Fresh.{stock_left}
use librarius.Tx.Write.Abort.{abort-Undone}
use librarius.Tx.Stocked.{Stocked, Clear, ClearSlot, Widths}
use librarius.Tx.Stocked.Ready.{
  two_pages, bounded, ready-Writable, copies_then, copies_avoid, Untouched,
}
use librarius.Tx.Stocked.Copies.{writer, own_slot, source_left, las_ready}
use librarius.Tx.Stocked.Advance.{MadeWith, written}

module _ {S : Type 0} ⦃src : Source S⦄ (arr : Addressable S) (k base : ℕ) (size : ObjectSize)
    (c : ℕ) (vos : Versioned S) (root : Place) (page next : Page) (rest : List Page) (h : Copy)
    (older : List Copy) (x : Stocked arr k base size c vos (page ∷ next ∷ rest) h older)
    (widths : Widths arr k base size c) (small : vos.version + 1 < direct_space) where
  pub record Restored (las : LogicalAddressSpace S) : Type 0 where
    pub las_after : LogicalAddressSpace S
    pub run :
        abort (written arr k base size c vos root page next rest h older x widths small las) ≡ (
          ok tt,
          over arr k
              (written arr k base size c vos root page next rest h older x widths small las)
              las_after
              vos.version,
        )
    pub stocked :
        Stocked arr k base size c (record { las = las_after; version = vos.version }) rest h older

  pub Made-Restored :
      (las : LogicalAddressSpace S) (content : List ℕ)
      → MadeWith arr k base size c vos root page next rest h older x widths small las content
      → Restored las
  Made-Restored las content made =
      let all = Clear arr k base size c (page ∷ next ∷ rest) in
      let slots = ClearSlot arr k base size c (page ∷ next ∷ rest) in
      let P = Clear arr k base size c rest in
      let V = ClearSlot arr k base size c rest in
      let q = own_slot arr k base size c vos root page next rest h older x widths in
      let ready = las_ready arr k base size c vos root page next rest h older x widths in
      let chain = copies_then arr k base size c vos root page next rest h older x widths in
      let free : (u : LogicalSlice) → all u → P u = λ u e. (e.0, e.1.1.1) in
      let y =
        abort-Undone arr k base
          (source_left arr k base size c vos root page next rest h older x widths)
          (writer arr k base size c vos root page next rest h older x widths)
          (whole_page arr k base next) size q x.pointer c h older
          (ready-Writable arr k base size c vos root page next rest h older x widths) refl las
          content made in
      record {
        las_after = y.las_after;
        run = y.run;
        stocked = record {
          pointer = x.pointer;
          pointed = y.pointer_back;
          pointer_placed = x.pointer_placed;
          copies =
              Tracked-Frame arr k P V
                (Untouched arr k base size c vos root page next rest h older x widths) ready
                y.las_after size (local x.pointer) (h ∷ older) y.frame
                (
                  chain.0,
                  Along-map arr k all P slots V ready size (local x.pointer) (h ∷ older) chain.0
                      free (λ r e. free (new_slice r 8) e) chain.1,
                )
                (copies_avoid arr k base size c vos root page next rest h older x widths);
          cell_apart = x.cell_apart.1.1;
          committed = x.committed;
          stock = y.stocks base rest (
              stock_left arr k base vos root page next rest
                (two_pages arr k base size c vos root page next rest h older x widths)
                (bounded arr k base size c vos root page next rest h older x widths));
          usable = x.usable.3.3;
        };
      }
