-- ===== src/Tx/Write.antt =====
-- `Transaction::write` that succeeds, and the copy it makes.
pub mod Seen
pub mod Commit
pub mod Abort
use librarius.Prelude.{
  ℕ, zero, suc, ◌+◌, ◌^◌, ◌≤◌, ◌<◌, ◌≡◌, refl, sym, ap, subst, ◌∙◌, arith, true, false, some, List,
  [], ◌∷◌, ◌++◌, length, inl, inr,
}
use librarius.Usize.{word}
use librarius.Error.{Result, ok, err, panic, out_of_fuel}
use librarius.Source.{Source}
use librarius.Source.Contract.{Addressable}
use librarius.Source.Allocator.{SourceAllocator}
use librarius.Las.Slice.{LogicalSlice, new_slice}
use librarius.Las.MutRef.{LogicalMutRef}
use librarius.Las.MutRef.Pieces.{IsTight}
use librarius.Las.Space.{LogicalAddressSpace}
use librarius.Las.Space.Memory.{Disjoint}
use librarius.Las.Space.Stock.{KeepsStock}
use librarius.Las.Space.Region.{Region}
use librarius.Vos.Pointer.{address}
use librarius.Vos.Pointer.Words.{address_space, address_lem}
use librarius.Vos.Place.{Place, cell, local, load}
use librarius.Vos.Place.Words.{Word, Stored, load_lem}
use librarius.Vos.Version.Slot.{indirect}
use librarius.Vos.Object.{ObjectSize, total, object_header_size, other_offset}
use librarius.Vos.Alloc.{Allocating}
use librarius.Vos.Alloc.Copied.{Copied, alloc_object-Copied, user_slice, rest_of}
use librarius.Vos.Reader.{Found, read_object}
use librarius.Vos.Reader.History.{Copy, visible, first_visible, seen, read_object-first}
use librarius.Vos.Reader.Chain.{Chain, Chain-History}
use librarius.Vos.Reader.Chain.Frame.{Frame, Frame-Word, Avoids}
use librarius.Vos.Reader.Chain.Publish.{HeadIs, AllBeside}
use librarius.Vos.Reader.Chain.Publish.{Near}
use librarius.Vos.Reader.Chain.Moved.{moved, Beset, Tracked-moved, Tracked-Frame}
use librarius.Vos.Reader.Chain.Prepend.{Placed, Placed-Chain}
use librarius.Vos.Reader.Chain.Bytes.{Chain-length}
use librarius.Tx.{Transaction, TransactionWrite, write_version, perform, write, read}
use librarius.Tx.Writes.{perform-byte}

pub Disjoint-symm : (s t : LogicalSlice) → Disjoint s t → Disjoint t s
Disjoint-symm s t (inl e) = inr e
Disjoint-symm s t (inr e) = inl e

-- The object allocator of a transaction.
abbrev pub objects : {S : Type 0} → Transaction S → Allocating S
objects t = record { las = t.vos.las; active = t.object_active }

module _ {S : Type 0} ⦃src : Source S⦄ (arr : Addressable S) (k base : ℕ) (a : SourceAllocator S)
    (t : Transaction S) (m : LogicalMutRef) (size : ObjectSize) (q p c : ℕ) where
  abbrev pub new_object : LogicalSlice
  new_object = new_slice m.slice.offset (total size + object_header_size)

  -- What neither the new copy nor the written word touches.
  abbrev pub Kept : LogicalSlice → Type 0
  Kept u = Disjoint new_object u × Disjoint (new_slice c 8) u

  abbrev pub new_write : TransactionWrite
  new_write = record {
    dst = cell c;
    current = address p;
    new = m.slice.offset + object_header_size;
  }

  abbrev pub new_part : LogicalSlice
  new_part = new_slice (m.slice.offset + object_header_size) (total size)

  -- A space where the new copy stands in front of the others.
  pub record Made (las' : LogicalAddressSpace S) (userdata : List ℕ) : Type 0 where
    pub placed : Placed arr k las' m.slice.offset size q p (cell c) userdata
    pub frame : Frame arr k Kept t.vos.las las'
    pub stocks : KeepsStock arr k t.vos.las las'

  -- The copies of the object then.
  abbrev pub made_copies : List ℕ → Copy → List Copy → List Copy
  made_copies userdata h older =
      record {
        number = 0;
        found = record { userdata = userdata; place = cell c; header = m.slice.offset };
      }
      ∷ moved (cell (m.slice.offset + other_offset)) (h ∷ older)

  -- The transaction after the write.
  abbrev pub written_to : LogicalAddressSpace S → Transaction S
  written_to las' = record t {
    vos = record (t.vos) { las = las' };
    object_active = some (rest_of m (total size + object_header_size));
    writeset = t.writeset ++ new_write ∷ [];
  }

  -- The transaction can write: it has a version slot and a page with room, and the pointer and the
  -- copies of the object are in memory, apart from each other.
  pub record Writable (h : Copy) (older : List Copy) : Type 0 where
    pub begun : t.version ≡ some (indirect q)
    pub slot : Word arr k t.vos.las q 0
    pub pointer : Word arr k t.vos.las c p
    pub slot_placed : q < address_space
    pub pointer_placed : p < address_space
    pub copy_placed : m.slice.offset + object_header_size < address_space
    pub pointers_fit : size.pointers < 2 ^ 32
    pub user_data_fits : size.user_data < 2 ^ 32
    pub positive : 0 < total size
    pub active : t.object_active ≡ some m
    pub tight : IsTight m
    pub fits : total size + object_header_size ≤ m.slice.len
    pub region : Region arr t.vos.las new_object k base a
    pub apart : Disjoint new_object (new_slice c 8)
    pub slot_apart : Kept (new_slice q 8)
    pub copies : Beset arr k q t.vos.las size (local p) (h ∷ older)
    pub avoids : Avoids arr k Kept copies.0

  module _ (h : Copy) (older : List Copy) (w : Writable h older) where
    pub Made-Chain :
        (las' : LogicalAddressSpace S) (userdata : List ℕ)
        → Made las' userdata
        → (chain : Chain arr k las' size (cell c) (made_copies userdata h older)) × HeadIs arr k q
            chain
          × AllBeside arr k q chain
    Made-Chain las' userdata x =
        Placed-Chain arr k las' m.slice.offset size q p (cell c) userdata x.placed
          (
            w.copy_placed,
            w.pointers_fit,
            w.user_data_fits,
            w.slot_placed,
            omega (arith, w.pointer_placed),
            w.positive,
          )
          (h ∷ older)
          (Tracked-Frame arr k (Disjoint (new_slice q 8)) (Near arr k q) Kept t.vos.las las' size
            (local p) (h ∷ older) x.frame w.copies w.avoids)

    -- The copy with the old user's part, the pointer to it stored.
    Copied-Made :
        (x : Copied arr k base a (objects t) m size (indirect q) p h.found.userdata)
        (las' : LogicalAddressSpace S)
        → Stored arr k x.las_after las' c (m.slice.offset + object_header_size)
        → Made las' h.found.userdata
    Copied-Made x las' stored =
        let (b, region') = stored.regions new_object base x.allocator_after x.region in
        let frame : Frame arr k Kept t.vos.las las' = λ u base' bytes off held.
          stored.slices u base' bytes off.1 (x.frame u base' bytes off.0 held) in
        record {
          placed = record {
            base = base;
            allocator = b;
            region = region';
            held =
                stored.slices new_object base _ (Disjoint-symm new_object (new_slice c 8) w.apart)
                  record {
                    allocator = x.allocator_after;
                    resolves = x.region.whole;
                    bytes_there = x.bytes_there;
                  };
            pointed = stored.here;
            slot = Frame-Word arr k Kept t.vos.las las' q 0 frame w.slot_apart w.slot;
            pointer_apart = Disjoint-symm (new_slice c 8) (new_slice q 8) w.slot_apart.1;
            slot_apart = Disjoint-symm new_object (new_slice q 8) w.slot_apart.0;
          };
          frame = frame;
          stocks = λ start pages s. stored.stocks start pages (x.stocks start pages s);
        }

    copied :
        length h.found.userdata ≡ total size
        → Copied arr k base a (objects t) m size (indirect q) p h.found.userdata
    copied same_length =
        alloc_object-Copied arr k base a (objects t) m size (indirect q) p h.found.userdata w.active
          w.tight w.fits w.region w.positive same_length

    swapped :
        (x : Copied arr k base a (objects t) m size (indirect q) p h.found.userdata)
        → (las' : LogicalAddressSpace S) × (perform new_write x.las_after ≡ (ok true, las'))
          × Stored arr k x.las_after las' c (m.slice.offset + object_header_size)
    swapped x =
        let same : p ≡ address p = omega (arith, address_lem p, w.pointer_placed) in
        perform-byte arr k c (address p) (m.slice.offset + object_header_size)
          (omega (arith, w.slot_placed, w.pointer_placed, w.copy_placed))
          (subst (Word arr k x.las_after c) same record {
            base = w.pointer.base;
            bytes = w.pointer.bytes;
            there = x.frame (new_slice c 8) w.pointer.base w.pointer.bytes w.apart w.pointer.there;
            value = w.pointer.value;
          })

    write_run :
        (x : Copied arr k base a (objects t) m size (indirect q) p h.found.userdata)
        (las' : LogicalAddressSpace S) (fuel : ℕ)
        → visible t.snapshot h ≡ true
        → h.found.place ≡ local p
        → perform new_write x.las_after ≡ (ok true, las')
        → write (suc fuel) (cell c) size t ≡ (ok new_part, written_to las')
    unfolding write write_version load
    write_run x las' fuel shown at_local run = ground (
      arith,
      w.begun,
      shown,
      at_local,
      run,
      load_lem arr k c p w.pointer,
      x.allocated,
      x.filled,
      read_object-first t.vos.las size t.snapshot fuel (local p) (h ∷ older)
          (Chain-History arr k t.vos.las size (local p) (h ∷ older) w.copies.0),
    )

    pub write-Made :
        (fuel : ℕ)
        → visible t.snapshot h ≡ true
        → (las' : LogicalAddressSpace S) × (write (suc fuel) (cell c) size t
            ≡ (ok new_part, written_to las'))
          × Made las' h.found.userdata
    write-Made fuel shown =
        let (same_length, at_local) =
          Chain-length arr k t.vos.las size (local p) h older w.copies.0 in
        let x = copied same_length in
        let (las', run, stored) = swapped x in
        (las', write_run x las' fuel shown at_local run, Copied-Made x las' stored)
