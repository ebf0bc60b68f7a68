-- ===== src/Source/Allocator/Ends.antt =====
-- src/source/mod.rs: which calls come back. A method of the trait returns or panics, and what is
-- built of calls that come back by sequencing does too.
use librarius.Prelude.{ℕ, ◌≢◌, Bool, true, false, Option, none, some, List, [], ◌∷◌, if◌then◌else◌}
use librarius.Error.{
  Error, Result, ok, err, panic, out_of_fuel, ok_or, and_then, Action, continue, assert,
}
use librarius.Source.{Source, Page, split}
use librarius.Source.Allocator.{
  SourceAllocator, allocate_page, allocated, allocate_from, get_bytes, get_bytes_mut, write_from,
}

-- The outcome is not that of a recursion that was cut.
abbrev pub Ends : {A : Type 0} → Result A → Type 0
Ends (ok a) = Unit
Ends (err e) = Unit
Ends panic = Unit
Ends out_of_fuel = ⊥

pub Ends-not_cut : {A : Type 0} (r : Result A) → Ends r → r ≢ out_of_fuel
Ends-not_cut (ok a) h e = cc e
Ends-not_cut (err _) h e = cc e
Ends-not_cut panic h e = cc e
Ends-not_cut out_of_fuel h e = h

-- Every method of the source that can fail comes back.
pub record Returning (S : Type 0) ⦃src : Source S⦄ : Type 0 where
  pub read_ends : (offset len : ℕ) (s : S) → Ends (src.read offset len s).0
  pub write_ends : (offset : ℕ) (bytes : List ℕ) (s : S) → Ends (src.write offset bytes s).0
  pub flush_ends : (s : S) → Ends (src.flush s).0
  pub at_ends : (offset len : ℕ) (s : S) → Ends (src.at offset len s)
  pub at_mut_ends : (offset len : ℕ) (s : S) → Ends (src.at_mut offset len s)
  pub flush_slice_ends : (bytes : List ℕ) (s : S) → Ends (src.flush_slice bytes s)

pub and_then-Ends :
    {A B : Type 0} (r : Result A) (f : A → Result B)
    → Ends r
    → ((a : A) → Ends (f a))
    → Ends (and_then r f)
and_then-Ends (ok a) f h k = k a
and_then-Ends (err _) f h k = tt
and_then-Ends panic f h k = tt
and_then-Ends out_of_fuel f h k = h

pub continue-Ends :
    {S A B : Type 0} (x : Result A × S) (f : A → Action S B)
    → Ends x.0
    → ((a : A) (s : S) → Ends (f a s).0)
    → Ends (continue x f).0
continue-Ends (ok a, s) f h k = k a s
continue-Ends (err _, s) f h k = tt
continue-Ends (panic, s) f h k = tt
continue-Ends (out_of_fuel, s) f h k = h

pub assert-Ends : {S : Type 0} (b : Bool) (s : S) → Ends (assert b s).0
assert-Ends true s = tt
assert-Ends false s = tt

-- A result that is lifted, and an assertion, keep the state for what follows.
pub lift-Ends :
    {S A B : Type 0} (r : Result A) (f : A → Action S B) (s : S)
    → Ends r
    → ((a : A) → Ends (f a s).0)
    → Ends (continue (r, s) f).0
lift-Ends (ok a) f s h k = k a
lift-Ends (err _) f s h k = tt
lift-Ends panic f s h k = tt
lift-Ends out_of_fuel f s h k = h

pub asserted-Ends :
    {S B : Type 0} (b : Bool) (m : Action S B) (s : S)
    → Ends (m s).0
    → Ends (continue (assert b s) (λ _. m)).0
asserted-Ends true m s h = h
asserted-Ends false m s h = tt

pub ok_or-Ends : {A : Type 0} (o : Option A) (e : Error) → Ends (ok_or o e)
ok_or-Ends none e = tt
ok_or-Ends (some a) e = tt

pub if-Ends : {A : Type 0} (b : Bool) (r q : Result A) → Ends r → Ends q → Ends (if b then r else q)
if-Ends true r q h k = h
if-Ends false r q h k = k

module _ {S : Type 0} (a : SourceAllocator S) where
  allocated-Ends :
      (rest : List Page) (cut : Option Page) (page : Page) → Ends (allocated a rest (cut, page)).0
  unfolding allocated
  allocated-Ends rest none page = tt
  allocated-Ends rest (some cut) page = tt

  allocate_from-Ends : (pages : List Page) → Ends (allocate_from a pages).0
  unfolding allocate_from
  allocate_from-Ends [] = tt
  allocate_from-Ends (page ∷ rest) =
      allocated-Ends rest (split page a.pagesize).0 (split page a.pagesize).1

  pub allocate_page-Ends : Ends (allocate_page a).0
  unfolding allocate_page
  allocate_page-Ends = allocate_from-Ends a.freelist

module _ {S : Type 0} ⦃src : Source S⦄ (returning : Returning S) where
  pub get_bytes-Ends : (page : Page) (a : SourceAllocator S) → Ends (get_bytes page a)
  unfolding get_bytes
  get_bytes-Ends page a =
      if-Ends (src.is_byte_addressable a.source) _ _
        (and_then-Ends (src.at page.offset page.len a.source) _
          (returning.at_ends page.offset page.len a.source) λ bytes. tt)
        tt

  pub get_bytes_mut-Ends : (page : Page) (a : SourceAllocator S) → Ends (get_bytes_mut page a)
  unfolding get_bytes_mut
  get_bytes_mut-Ends page a =
      if-Ends (src.is_byte_addressable a.source) _ _
        (and_then-Ends (src.at_mut page.offset page.len a.source) _
          (returning.at_mut_ends page.offset page.len a.source) λ r. tt)
        tt

  pub write_from-Ends :
      (page : Page) (bytes : List ℕ) (a : SourceAllocator S) → Ends (write_from page bytes a).0
  unfolding write_from
  write_from-Ends page bytes a = continue-Ends (assert _ a) _ (assert-Ends _ a) λ _ b.
      continue-Ends _ _ (returning.write_ends page.offset bytes b.source)
        λ _ c. returning.flush_ends c.source
