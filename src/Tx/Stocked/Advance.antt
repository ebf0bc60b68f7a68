-- ===== src/Tx/Stocked/Advance.antt =====
-- A transaction on the database that writes the object, fills its memory and commits: the database
-- afterwards.
use librarius.Prelude.{ℕ, suc, ◌+◌, ◌<◌, ◌≡◌, refl, ◌∙◌, List, ◌∷◌, length}
use librarius.Error.{ok}
use librarius.Source.{Source, Page}
use librarius.Source.Contract.{Addressable}
use librarius.Las.Slice.{LogicalSlice}
use librarius.Las.Space.{LogicalAddressSpace, read, write_through}
use librarius.Las.Space.Fresh.{whole_page}
use librarius.Vos.Place.{Place, cell, local}
use librarius.Vos.Version.Words.{direct_space}
use librarius.Vos.Object.{ObjectSize, total, object_header_size}
use librarius.Vos.Reader.History.{Copy}
use librarius.Vos.Store.{Versioned}
use librarius.Tx.{Transaction, new_transaction, write}
use librarius.Tx.Fresh.{stock_left}
use librarius.Tx.Write.{write-Made}
use librarius.Tx.Write.Commit.{Made-Filled}
use librarius.Tx.Stocked.{Stocked, Widths}
use librarius.Tx.Stocked.Ready.{two_pages, bounded, ready-Writable, shown, write_same}
use librarius.Tx.Stocked.Pending.{Pending, Published, Pending-Published}
use librarius.Tx.Stocked.Copies.{
  writer, own_slot, start, source_left, memory, IsMade, after_write, slot_Free, Made-memory,
  copies_made,
}

module _ {S : Type 0} ⦃src : Source S⦄ (arr : Addressable S) (k base : ℕ) (size : ObjectSize)
    (c : ℕ) (vos : Versioned S) (root : Place) (page next : Page) (rest : List Page) (h : Copy)
    (older : List Copy) (x : Stocked arr k base size c vos (page ∷ next ∷ rest) h older)
    (widths : Widths arr k base size c) (small : vos.version + 1 < direct_space) where
  abbrev pub MadeWith : LogicalAddressSpace S → List ℕ → Type 0
  MadeWith = IsMade arr k base size c vos root page next rest h older x widths

  abbrev pub q : ℕ
  q = own_slot arr k base size c vos root page next rest h older x widths

  abbrev o : ℕ
  o = start arr k base size c vos root page next rest h older x widths

  abbrev pub written : LogicalAddressSpace S → Transaction S
  written = after_write arr k base size c vos root page next rest h older x widths

  abbrev pub part : LogicalSlice
  part = memory arr k base size c vos root page next rest h older x widths

  abbrev pub vos_with : LogicalAddressSpace S → Versioned S
  vos_with las = record { las = las; version = vos.version }

  -- The database, once the memory holds its new content.
  pub Made-Pending :
      (las : LogicalAddressSpace S) (content : List ℕ)
      → MadeWith las content
      → Pending arr k base size c q (vos_with las) rest content (suc (length older))
  Made-Pending las content made =
      let w = ready-Writable arr k base size c vos root page next rest h older x widths in
      let (copies, chain, same, own, along) =
        copies_made arr k base size c vos root page next rest h older x widths las content made in
      record {
        pointer = o + object_header_size;
        pointed = made.placed.pointed;
        pointer_placed = w.copy_placed;
        own = record {
          number = 0;
          found = record { userdata = content; place = local (o + object_header_size); header = o };
        };
        others = copies;
        userdata = refl;
        uncommitted = refl;
        count = same;
        copies = (chain, along);
        head = own;
        slot = made.placed.slot;
        slot_placed = w.slot_placed;
        cell_apart = x.cell_apart.1.1;
        slot_cell = made.placed.pointer_apart;
        slot_apart = (slot_Free arr k base size c vos root page next rest h older x widths).0.1;
        stock = made.stocks base rest (
            stock_left arr k base vos root page next rest
              (two_pages arr k base size c vos root page next rest h older x widths)
              (bounded arr k base size c vos root page next rest h older x widths));
        usable = x.usable.3.3;
      }

  -- The commit then.
  pub Made-Published :
      (las : LogicalAddressSpace S) (content : List ℕ) (made : MadeWith las content)
      → Published arr k base size c q
          (vos_with las)
          rest
          content
          (suc (length older))
          (Made-Pending las content made)
          small
          (written las)
          refl
          refl
  Made-Published las content made =
      Pending-Published arr k base size c q (vos_with las) rest content (suc (length older))
        (Made-Pending las content made) small (written las) refl refl

  -- The write, the new memory as its owner finds it, and the memory filled.
  pub record Rewritten (fuel : ℕ) (content : List ℕ) : Type 0 where
    pub las_written : LogicalAddressSpace S
    pub wrote :
        write (suc fuel) (cell c) size (new_transaction vos root) ≡ (ok part, written las_written)
    pub content_read : read part las_written ≡ (ok h.found.userdata, las_written)
    pub las_filled : LogicalAddressSpace S
    pub filled : write_through part content las_written ≡ (ok tt, las_filled)
    pub made : MadeWith las_filled content

  pub write-Rewritten :
      (fuel : ℕ) (content : List ℕ) → length content ≡ total size → Rewritten fuel content
  write-Rewritten fuel content same_length =
      let w = ready-Writable arr k base size c vos root page next rest h older x widths in
      let t = writer arr k base size c vos root page next rest h older x widths in
      let a = source_left arr k base size c vos root page next rest h older x widths in
      let (las', run, made) =
        write-Made arr k base a t (whole_page arr k base next) size q x.pointer c h older w fuel
          (shown arr k base size c vos root page next rest h older x widths) in
      let (f, made') =
        Made-Filled arr k base a t (whole_page arr k base next) size q x.pointer c h older w las'
          h.found.userdata content made same_length in
      record {
        las_written = las';
        wrote = write_same arr k base size c vos root page next rest h older x widths fuel ∙ run;
        content_read =
            Made-memory arr k base size c vos root page next rest h older x widths las'
              h.found.userdata made;
        las_filled = f.las_after;
        filled = f.run;
        made = made';
      }
