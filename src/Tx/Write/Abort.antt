-- ===== src/Tx/Write/Abort.antt =====
-- The abort of a transaction that has written one object.
use librarius.Prelude.{ℕ, ◌+◌, ◌≡◌, refl, subst, arith, List, []}
use librarius.Error.{ok}
use librarius.Source.{Source}
use librarius.Source.Contract.{Addressable}
use librarius.Source.Allocator.{SourceAllocator}
use librarius.Las.MutRef.{LogicalMutRef}
use librarius.Las.Space.{LogicalAddressSpace}
use librarius.Las.Space.Stock.{KeepsStock}
use librarius.Vos.Pointer.{address, new_byte}
use librarius.Vos.Pointer.Words.{address_lem, new_byte_lem}
use librarius.Vos.Place.Words.{Word, compare_and_swap-hit}
use librarius.Vos.Object.{ObjectSize, object_header_size}
use librarius.Vos.Reader.History.{Copy}
use librarius.Vos.Reader.Chain.Frame.{Frame}
use librarius.Tx.{Transaction, rollback, rollback_all, abort}
use librarius.Tx.Write.{Writable, Made, written_to, Kept}

module _ {S : Type 0} ⦃src : Source S⦄ (arr : Addressable S) (k base : ℕ) (a : SourceAllocator S)
    (t : Transaction S) (m : LogicalMutRef) (size : ObjectSize) (q p c : ℕ) (h : Copy)
    (older : List Copy) (w : Writable arr k base a t m size q p c h older) (alone : t.writeset ≡ [])
    (las' : LogicalAddressSpace S) (content : List ℕ)
    (made : Made arr k base a t m size q p c las' content) where
  -- The pointer is put back, and what stands apart from the copy and the pointer is kept.
  pub record Undone : Type 0 where
    pub las_after : LogicalAddressSpace S
    pub run : abort (written_to arr k base a t m size q p c las') ≡ (
      ok tt,
      record (written_to arr k base a t m size q p c las') {
        vos = record (t.vos) { las = las_after };
      },
    )
    pub frame : Frame arr k (Kept arr k base a t m size q p c) t.vos.las las_after
    pub pointer_back : Word arr k las_after c p
    pub stocks : KeepsStock arr k t.vos.las las_after

  pub abort-Undone : Undone
  unfolding abort rollback_all rollback
  abort-Undone =
      let o = m.slice.offset + object_header_size in
      let back : new_byte (address p) ≡ p =
        omega (arith, new_byte_lem (address p), address_lem p, w.pointer_placed) in
      let (las'', run, stored) =
        compare_and_swap-hit arr k c o o (new_byte (address p))
          (omega (arith, back, w.pointer_placed)) made.placed.pointed refl in
      let frame : Frame arr k (Kept arr k base a t m size q p c) t.vos.las las'' =
        λ u b bytes off held. stored.slices u b bytes off.1 (made.frame u b bytes off held) in
      record {
        las_after = las'';
        run = ground (arith, alone, run);
        frame = frame;
        pointer_back = subst (Word arr k las'' c) back stored.here;
        stocks = λ start pages x. stored.stocks start pages (made.stocks start pages x);
      }
