-- ===== src/Vos/Reader/Chain/Publish.antt =====
-- The copies of an object after the version slot of a transaction is set.
use librarius.Prelude.{
  ℕ, suc, ◌<◌, ◌≡◌, refl, sym, ap, subst, arith, List, [], ◌∷◌, length, ◌⊎◌, inl, inr,
}
use librarius.Usize.{wrapping_add}
use librarius.Source.{Source}
use librarius.Source.Contract.{Addressable}
use librarius.Las.Slice.{LogicalSlice, new_slice}
use librarius.Las.Space.{LogicalAddressSpace}
use librarius.Las.Space.Memory.{Disjoint}
use librarius.Vos.Place.{Place, cell}
use librarius.Vos.Place.Words.{Word, Stored, load_lem}
use librarius.Vos.Version.{Version}
use librarius.Vos.Version.Words.{direct_space}
use librarius.Vos.Object.{ObjectSize, other_offset}
use librarius.Vos.Reader.History.{Copy, first_visible, seen}
use librarius.Vos.Reader.Chain.{Numbered, direct, in_slot, Chain, last, link}
use librarius.Vos.Reader.Chain.Along.{OnSlot, Along}
use librarius.Vos.Reader.Chain.Frame.{Frame, Frame-Word, Frame-PlaceHolds}

-- A list of copies in which some that were not committed have got a number.
pub data Republished (m : ℕ) : List Copy → List Copy → Type 0 where
  nothing : Republished m [] []
  kept :
      {older older' : List Copy} (c : Copy)
      → Republished m older older'
      → Republished m (c ∷ older) (c ∷ older')
  published :
      {older older' : List Copy} (c : Copy)
      → c.number ≡ 0
      → Republished m older older'
      → Republished m (c ∷ older) (record c { number = m } ∷ older')

pub Republished-length : (m : ℕ) (cs ds : List Copy) → Republished m cs ds → length cs ≡ length ds
Republished-length m [] [] nothing = refl
Republished-length m [] (d ∷ ds) none_there = elim none_there [ ]
Republished-length m (c ∷ cs) [] none_there = elim none_there [ ]
Republished-length m (_ ∷ cs) (_ ∷ ds) (kept c r) = ap suc (Republished-length m cs ds r)
Republished-length m (_ ∷ cs) (_ ∷ ds) (published c e r) = ap suc (Republished-length m cs ds r)

pub Republished-found :
    (m : ℕ) (c d : Copy) (cs ds : List Copy) → Republished m (c ∷ cs) (d ∷ ds) → d.found ≡ c.found
Republished-found m _ _ cs ds (kept c r) = refl
Republished-found m _ _ cs ds (published c e r) = refl

-- A snapshot below the new number sees what it saw.
pub Republished-seen :
    (m snapshot : ℕ) (cs ds : List Copy)
    → snapshot < m
    → Republished m cs ds
    → seen (first_visible snapshot cs) ≡ seen (first_visible snapshot ds)
Republished-seen m snapshot [] [] below nothing = refl
Republished-seen m snapshot [] (d ∷ ds) below none_there = elim none_there [ ]
Republished-seen m snapshot (c ∷ cs) [] below none_there = elim none_there [ ]
Republished-seen m snapshot (_ ∷ cs) (_ ∷ ds) below (kept c r) =
    ground (arith, Republished-seen m snapshot cs ds below r)
Republished-seen m snapshot (_ ∷ cs) (_ ∷ ds) below (published c e r) =
    ground (arith, e, Republished-seen m snapshot cs ds below r)

module _ {S : Type 0} ⦃src : Source S⦄ (arr : Addressable S) (k : ℕ) (p : ℕ) where
  -- The slot at `q` is the slot at `p`, or shares no byte with it.
  abbrev pub Near : ℕ → Type 0
  Near q = (q ≡ p) ⊎ Disjoint (new_slice p 8) (new_slice q 8)

  abbrev pub Beside :
      {las : LogicalAddressSpace S} {v : Version} {n : ℕ} → Numbered arr k las v n → Type 0
  Beside num = OnSlot arr k Near num

  abbrev pub AllBeside :
      {las : LogicalAddressSpace S} {size : ObjectSize} {place : Place} {copies : List Copy}
      → Chain arr k las size place copies
      → Type 0
  AllBeside chain = Along arr k (Disjoint (new_slice p 8)) Near chain

  -- The slot of a copy, or of the newest of several, is the slot at `p`.
  abbrev pub SlotIs :
      {las : LogicalAddressSpace S} {v : Version} {n : ℕ} → Numbered arr k las v n → Type 0
  SlotIs (direct _ _) = ◌≡◌ {A = ℕ} 1 0
  SlotIs (in_slot q _ _ _ _) = q ≡ p

  abbrev pub HeadIs :
      {las : LogicalAddressSpace S} {size : ObjectSize} {place : Place} {copies : List Copy}
      → Chain arr k las size place copies
      → Type 0
  HeadIs (last _ _ _) = ◌≡◌ {A = ℕ} 1 0
  HeadIs (link q s base bytes number x there kind held long num rest) = SlotIs num

  module _ (las las' : LogicalAddressSpace S) (m : ℕ) (small : m < direct_space)
      (slot : Word arr k las p 0) (stored : Stored arr k las las' p m) where
    same_word : (n : ℕ) → Word arr k las p n → n ≡ 0
    same_word n w = ground (arith, load_lem arr k p n w, load_lem arr k p 0 slot)

    frame : Frame arr k (Disjoint (new_slice p 8)) las las'
    frame t base bytes apart held = stored.slices t base bytes apart held

    module _ (P : LogicalSlice → Type 0) (V : ℕ → Type 0) where
      -- The number that a version stands for afterwards.
      record Renumbered (v : Version) (n : ℕ) (num : Numbered arr k las v n) : Type 0 where
        number : ℕ
        becomes : Numbered arr k las' v number
        change : (number ≡ n) ⊎ ((n ≡ 0) × (number ≡ m))
        own : SlotIs num → number ≡ m
        slot_kept : OnSlot arr k V num → OnSlot arr k V becomes

      Numbered-Renumbered :
          (v n : ℕ) (num : Numbered arr k las v n) → Beside num → Renumbered v n num
      Numbered-Renumbered _ n (direct _ h) off = record {
        number = n;
        becomes = direct n h;
        change = inl refl;
        own = λ e. absurd (omega (arith, e));
        slot_kept = λ v. v;
      }
      Numbered-Renumbered _ n (in_slot q _ hq hn w) (inr apart) = record {
        number = n;
        becomes =
            in_slot q n hq hn
              (Frame-Word arr k (Disjoint (new_slice p 8)) las las' q n frame apart w);
        change = inl refl;
        own = λ e. absurd (omega (arith, e, apart));
        slot_kept = λ v. v;
      }
      Numbered-Renumbered _ n (in_slot q _ hq hn w) (inl same) = record {
        number = m;
        becomes =
            in_slot q m hq small (subst (λ (r : ℕ). Word arr k las' r m) (sym same) stored.here);
        change = inr (same_word n (subst (λ (r : ℕ). Word arr k las r n) same w), refl);
        own = λ _. refl;
        slot_kept = λ v. v;
      }

      -- The copies afterwards.
      pub record Reread {size : ObjectSize} {place : Place} {copies : List Copy}
          (chain : Chain arr k las size place copies) : Type 0 where
        pub after : List Copy
        pub chain_after : Chain arr k las' size place after
        pub republished : Republished m copies after
        pub own_head :
            HeadIs chain → (c : Copy) × (older : List Copy) × (after ≡ c ∷ older) × (c.number ≡ m)
        pub along_after : Along arr k P V chain → Along arr k P V chain_after

      pub Chain-Reread :
          (size : ObjectSize) (place : Place) (copies : List Copy)
          (chain : Chain arr k las size place copies)
          → AllBeside chain
          → Reread chain
      Chain-Reread size place [] (last q x h) off = record {
        after = [];
        chain_after =
            last q (Frame-PlaceHolds arr k (Disjoint (new_slice p 8)) las las' place q frame off x)
              h;
        republished = nothing;
        own_head = λ e. absurd (omega (arith, e));
        along_after = λ v. v;
      }
      Chain-Reread size place (c ∷ older)
            (link q s base bytes number x there kind held long num rest) off =
          let r = Numbered-Renumbered _ number num off.2 in
          let more =
            Chain-Reread size (cell (wrapping_add s.offset other_offset)) older rest off.3 in
          record {
            after = record c { number = r.number } ∷ more.after;
            chain_after =
                link q s base bytes r.number
                  (Frame-PlaceHolds arr k (Disjoint (new_slice p 8)) las las' place q frame off.0 x)
                  there kind (frame s base bytes off.1 held) long r.becomes more.chain_after;
            republished = elim r.change [
              | inl e ↦
                  subst
                    (λ (t : ℕ). Republished m (c ∷ older) (record c { number = t } ∷ more.after))
                    (sym e) (kept c more.republished)
              | inr e ↦
                  subst
                    (λ (t : ℕ). Republished m (c ∷ older) (record c { number = t } ∷ more.after))
                    (sym e.1) (published c e.0 more.republished)
            ];
            own_head = λ own. (record c { number = r.number }, more.after, refl, r.own own);
            along_after = λ v. (v.0, v.1, r.slot_kept v.2, more.along_after v.3);
          }
