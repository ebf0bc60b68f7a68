-- ===== src/Source/Allocator/Freelist.antt =====
-- The free list of a `SourceAllocator`: its pages, and what `allocate_page` takes of it.
use librarius.Prelude.{
  ℕ, ◌+◌, ◌*◌, ◌%◌, ◌≤◌, ◌≡◌, refl, ◌⊎◌, inl, inr, List, [], ◌∷◌, ◌++◌, arith, All, All-append,
}
use librarius.Error.{no_available_memory, Result, ok, err}
use librarius.Source.{Page, split}
use librarius.Source.Allocator.{SourceAllocator, allocate_page, allocated, allocate_from}

-- Two pages share no byte.
abbrev pub Apart : Page → Page → Type 0
Apart p q = (p.offset + p.len ≤ q.offset) ⊎ (q.offset + q.len ≤ p.offset)

-- A page of the allocator: of its size, aligned, behind the header and the metadata page, and
-- inside the source.
pub record IsPage (pagesize limit : ℕ) (p : Page) : Type 0 where
  pub sized : p.len ≡ pagesize
  pub aligned : p.offset % pagesize ≡ 0
  pub behind : 2 * pagesize ≤ p.offset
  pub inside : p.offset + pagesize ≤ limit

-- No two pages of a list share a byte.
abbrev pub AllApart : List Page → Type 0
AllApart [] = Unit
AllApart (p ∷ ps) = All (Apart p) ps × AllApart ps

-- What `allocate_page` does with a list of whole pages: it takes the first.
abbrev pub dequeue : {S : Type 0} → SourceAllocator S → List Page → Result Page × SourceAllocator S
dequeue a [] = (err no_available_memory, a)
dequeue a (p ∷ rest) = (ok p, record a { freelist = rest })

module _ {S : Type 0} (a : SourceAllocator S) where
  allocate_from-dequeue :
      (ps : List Page) → All (λ p. p.len ≡ a.pagesize) ps → allocate_from a ps ≡ dequeue a ps
  unfolding allocate_from allocated split
  allocate_from-dequeue [] h = refl
  allocate_from-dequeue (p ∷ ps) h = ground arith

-- If every free page has the allocator's page size, allocate_page takes the first free page whole
-- and keeps the others in order, and with none free fails with no_available_memory and changes
-- nothing.
pub allocate_page-dequeue :
    {S : Type 0} (a : SourceAllocator S)
    → All (λ p. p.len ≡ a.pagesize) a.freelist
    → allocate_page a ≡ dequeue a a.freelist
unfolding allocate_page
allocate_page-dequeue a h = allocate_from-dequeue a a.freelist h

pub Apart-symm : (p q : Page) → Apart p q → Apart q p
Apart-symm p q (inl h) = inr h
Apart-symm p q (inr h) = inl h

-- Facts about a list with one page taken out or put behind.
module _ (P : Page → Type 0) (p : Page) where
  pub All-remove : (xs ys : List Page) → All P (xs ++ p ∷ ys) → All P (xs ++ ys)
  All-remove [] ys h = h.1
  All-remove (x ∷ xs) ys h = (h.0, All-remove xs ys h.1)

  pub All-removed : (xs ys : List Page) → All P (xs ++ p ∷ ys) → P p
  All-removed [] ys h = h.0
  All-removed (x ∷ xs) ys h = All-removed xs ys h.1

pub AllApart-remove : (p : Page) (xs ys : List Page) → AllApart (xs ++ p ∷ ys) → AllApart (xs ++ ys)
AllApart-remove p [] ys h = h.1
AllApart-remove p (x ∷ xs) ys h = (All-remove (Apart x) p xs ys h.0, AllApart-remove p xs ys h.1)

pub AllApart-removed :
    (p : Page) (xs ys : List Page) → AllApart (xs ++ p ∷ ys) → All (Apart p) (xs ++ ys)
AllApart-removed p [] ys h = h.0
AllApart-removed p (x ∷ xs) ys h =
    (Apart-symm x p (All-removed (Apart x) p xs ys h.0), AllApart-removed p xs ys h.1)

pub AllApart-append_one :
    (p : Page) (xs : List Page) → AllApart xs → All (Apart p) xs → AllApart (xs ++ p ∷ [])
AllApart-append_one p [] h k = (tt, tt)
AllApart-append_one p (x ∷ xs) h k = (
  All-append (Apart x) xs (p ∷ []) h.0 (Apart-symm p x k.0, tt),
  AllApart-append_one p xs h.1 k.1,
)
