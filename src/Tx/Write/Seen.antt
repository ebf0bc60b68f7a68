-- ===== src/Tx/Write/Seen.antt =====
-- What the readers of an object see of a write that is not committed.
use librarius.Prelude.{
  ℕ, zero, suc, ◌+◌, ◌<◌, ◌≡◌, refl, sym, subst, ◌∙◌, arith, true, false, List, ◌∷◌, length,
}
use librarius.Error.{Result, ok, err, panic, out_of_fuel}
use librarius.Source.{Source}
use librarius.Source.Contract.{Addressable}
use librarius.Source.Allocator.{SourceAllocator}
use librarius.Las.Slice.{LogicalSlice, new_slice}
use librarius.Las.MutRef.{LogicalMutRef}
use librarius.Las.Space.{LogicalAddressSpace}
use librarius.Las.Space.Memory.{Disjoint}
use librarius.Vos.Place.{Place, cell}
use librarius.Vos.Object.{ObjectSize, other_offset}
use librarius.Vos.Reader.{Found, read_object}
use librarius.Vos.Reader.History.{Copy, visible, first_visible, seen}
use librarius.Vos.Reader.Chain.{Chain}
use librarius.Vos.Reader.Chain.Publish.{Near}
use librarius.Vos.Reader.Chain.Moved.{moved, Tracked-moved}
use librarius.Tx.{Transaction, write, read}
use librarius.Tx.Snapshot.{Chain-read_object}
use librarius.Tx.Write.{
  Writable, Made, write-Made, Made-Chain, made_copies, new_part, Disjoint-symm,
}

unfoldable pub userdata_of : Result Found → Result (List ℕ)
userdata_of (ok f) = ok f.userdata
userdata_of (err e) = err e
userdata_of panic = panic
userdata_of out_of_fuel = out_of_fuel

-- A copy that is not committed hides nothing.
passed_over :
    (snapshot : ℕ) (found : Found) (here there : Place) (h : Copy) (older : List Copy)
    → userdata_of (
        seen
          (first_visible snapshot (record { number = 0; found = found } ∷ moved here (h ∷ older))))
      ≡ userdata_of (seen (first_visible snapshot (moved there (h ∷ older))))
unfolding userdata_of
passed_over snapshot found here there h older = ground arith

pub read_lem :
    {S : Type 0} ⦃src : Source S⦄ (u : Transaction S) (fuel : ℕ) (place : Place) (size : ObjectSize)
    (r : Result Found)
    → (read_object fuel u.snapshot place size false u.vos.las).0 ≡ r
    → (read fuel place size u).0 ≡ userdata_of r
unfolding read userdata_of
read_lem u fuel place size r h = ground (arith, h)

module _ {S : Type 0} ⦃src : Source S⦄ (arr : Addressable S) (k base : ℕ) (a : SourceAllocator S)
    (t : Transaction S) (m : LogicalMutRef) (size : ObjectSize) (q p c : ℕ) (h : Copy)
    (older : List Copy) (w : Writable arr k base a t m size q p c h older) where
  before_write : Chain arr k t.vos.las size (cell c) (moved (cell c) (h ∷ older))
  before_write =
      (Tracked-moved arr k (Disjoint (new_slice q 8)) (Near arr k q) t.vos.las size p (cell c)
        (h ∷ older) w.pointer (Disjoint-symm (new_slice c 8) (new_slice q 8) w.slot_apart.1)
        w.copies).0

  -- Before the commit, whatever the new copy holds, readers see what they saw.
  pub Made-read :
      (las' : LogicalAddressSpace S) (userdata : List ℕ) (u : Transaction S) (fuel : ℕ)
      → Made arr k base a t m size q p c las' userdata
      → length older + 2 < fuel
      → (read fuel (cell c) size (record u { vos = record (t.vos) { las = las' } })).0
        ≡ (read fuel (cell c) size (record u { vos = t.vos })).0
  Made-read las' userdata u fuel made enough =
      let later =
        Chain-read_object arr k las' size u.snapshot fuel (cell c)
          (made_copies arr k base a t m size q p c userdata h older) (omega (arith, enough))
          (Made-Chain arr k base a t m size q p c h older w las' userdata made).0 in
      let earlier =
        Chain-read_object arr k t.vos.las size u.snapshot fuel (cell c) (moved (cell c) (h ∷ older))
          (omega (arith, enough)) before_write in
      read_lem (record u { vos = record (t.vos) { las = las' } }) fuel (cell c) size _ later
      ∙ passed_over u.snapshot
          (record { userdata = userdata; place = cell c; header = m.slice.offset })
          (cell (m.slice.offset + other_offset)) (cell c) h older
      ∙ sym (read_lem (record u { vos = t.vos }) fuel (cell c) size _ earlier)

  -- For a transaction that can write an object that is not empty (its version slot holds 0, its
  -- active page has room for a copy, the pointer and the copies of the object are in memory apart
  -- from both, and the address it holds, the slot and the new copy are below 2^54), whose snapshot
  -- sees the newest copy: the write succeeds with the memory of the new copy, and, with more fuel
  -- than the copies, a read of the object by any transaction gives the same after the write as
  -- before it, so that a write that is not committed is seen by nobody, its own transaction
  -- included.
  pub write-read :
      (u : Transaction S) (fuel : ℕ)
      → visible t.snapshot h ≡ true
      → length older + 2 < fuel
      → ((write fuel (cell c) size t).0 ≡ ok (new_part arr k base a t m size q p c))
        × ((read fuel (cell c) size (record u { vos = (write fuel (cell c) size t).1.vos })).0
            ≡ (read fuel (cell c) size (record u { vos = t.vos })).0)
  write-read u zero shown enough = absurd (omega arith)
  write-read u (suc fuel) shown enough =
      let (las', run, made) = write-Made arr k base a t m size q p c h older w fuel shown in
      subst
        (λ (x : Result LogicalSlice × Transaction S).
          (x.0 ≡ ok (new_part arr k base a t m size q p c))
          × ((read (suc fuel) (cell c) size (record u { vos = x.1.vos })).0
              ≡ (read (suc fuel) (cell c) size (record u { vos = t.vos })).0))
        (sym run) (refl, Made-read las' h.found.userdata u (suc fuel) made enough)
