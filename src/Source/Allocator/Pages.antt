-- ===== src/Source/Allocator/Pages.antt =====
-- The pages of a `SourceAllocator` over a history of `allocate_page` and `free_page`: the free ones,
-- and the ones handed out.
use librarius.Prelude.{ℕ, ◌≡◌, sym, subst, List, [], ◌∷◌, ◌++◌, ◌∙◌, All, All-append, All-map}
use librarius.Error.{Result, ok}
use librarius.Source.{Page}
use librarius.Source.Allocator.{SourceAllocator, allocate_page, free_page}
use librarius.Source.Allocator.Freelist.{
  Apart, IsPage, AllApart, dequeue, allocate_page-dequeue, Apart-symm, All-remove, All-removed,
  AllApart-remove, AllApart-removed, AllApart-append_one,
}

-- The allocator, and the pages that are handed out.
pub record History (S : Type 0) : Type 0 where
  pub allocator : SourceAllocator S
  pub live : List Page

-- One call. A page that is given back is one of those handed out.
pub data Step {S : Type 0} (h : History S) : History S → Type 0 where
  allocate :
      (p : Page) (a : SourceAllocator S)
      → allocate_page h.allocator ≡ (ok p, a)
      → Step h (record { allocator = a; live = p ∷ h.live })
  free :
      (p : Page) (xs ys : List Page)
      → h.live ≡ xs ++ p ∷ ys
      → Step h (record { allocator = free_page p h.allocator; live = xs ++ ys })

pub data Reach {S : Type 0} (h : History S) : History S → Type 0 where
  here : Reach h h
  next : {g k : History S} → Reach h g → Step g k → Reach h k

-- Every page is a page of the source, and no two of them, free or handed out, share a byte.
pub record IsSound {S : Type 0} (limit : ℕ) (h : History S) : Type 0 where
  pub free_pages : All (IsPage h.allocator.pagesize limit) h.allocator.freelist
  pub live_pages : All (IsPage h.allocator.pagesize limit) h.live
  pub free_apart : AllApart h.allocator.freelist
  pub live_apart : AllApart h.live
  pub across : All (λ p. All (Apart p) h.live) h.allocator.freelist

module _ {S : Type 0} (limit : ℕ) where
  -- What a successful allocation leaves.
  abbrev After : List Page → Result Page × SourceAllocator S → Type 0
  After live (ok p, a) = IsSound limit (record { allocator = a; live = p ∷ live })
  After live (_, a) = Unit

  dequeue-IsSound :
      (a : SourceAllocator S) (live ps : List Page)
      → All (IsPage a.pagesize limit) ps
      → All (IsPage a.pagesize limit) live
      → AllApart ps
      → AllApart live
      → All (λ p. All (Apart p) live) ps
      → After live (dequeue a ps)
  dequeue-IsSound a live [] fr used ff ll across = tt
  dequeue-IsSound a live (q ∷ ps) fr used ff ll across = record {
    free_pages = fr.1;
    live_pages = (fr.0, used);
    free_apart = ff.1;
    live_apart = (across.0, ll);
    across = cons_across ps ff.0 across.1;
  }
    where
      cons_across :
          (xs : List Page)
          → All (Apart q) xs
          → All (λ p. All (Apart p) live) xs
          → All (λ p. All (Apart p) (q ∷ live)) xs
      cons_across [] h k = tt
      cons_across (x ∷ xs) h k = ((Apart-symm q x h.0, k.0), cons_across xs h.1 k.1)

  free-IsSound :
      (h : History S) (p : Page) (xs ys : List Page)
      → IsSound limit (record { allocator = h.allocator; live = xs ++ p ∷ ys })
      → IsSound limit (record { allocator = free_page p h.allocator; live = xs ++ ys })
  unfolding free_page
  free-IsSound h p xs ys s = record {
    free_pages =
        All-append (IsPage h.allocator.pagesize limit) h.allocator.freelist (p ∷ []) s.free_pages
          (All-removed (IsPage h.allocator.pagesize limit) p xs ys s.live_pages, tt);
    live_pages = All-remove (IsPage h.allocator.pagesize limit) p xs ys s.live_pages;
    free_apart = AllApart-append_one p h.allocator.freelist s.free_apart (
        All-map (λ q k. Apart-symm q p (All-removed (Apart q) p xs ys k)) h.allocator.freelist
          s.across);
    live_apart = AllApart-remove p xs ys s.live_apart;
    across =
        All-append (λ q. All (Apart q) (xs ++ ys)) h.allocator.freelist (p ∷ [])
          (All-map (λ q. All-remove (Apart q) p xs ys) h.allocator.freelist s.across)
          (AllApart-removed p xs ys s.live_apart, tt);
  }

  pub Step-IsSound : {h k : History S} → Step h k → IsSound limit h → IsSound limit k
  Step-IsSound {h} (allocate p a e) s =
      let sized =
        All-map (λ (q : Page) (k : IsPage h.allocator.pagesize limit q). k.sized)
          h.allocator.freelist s.free_pages in
      subst (After h.live) (sym (allocate_page-dequeue h.allocator sized) ∙ e) (
        dequeue-IsSound h.allocator h.live h.allocator.freelist s.free_pages s.live_pages
          s.free_apart s.live_apart s.across)
  Step-IsSound {h} (free p xs ys e) s =
      free-IsSound h p xs ys
        (subst (λ live. IsSound limit (record { allocator = h.allocator; live = live })) e s)

-- From a sound state, after any sequence of successful allocations and of frees of pages handed
-- out, every page, free or handed out, has the page size, is aligned, lies behind the header and
-- the metadata page and inside the source, and no two of them share a byte.
pub Reach-IsSound :
    {S : Type 0} (limit : ℕ) {h k : History S} → IsSound limit h → Reach h k → IsSound limit k
Reach-IsSound limit s here = s
Reach-IsSound limit s (next r st) = Step-IsSound limit st (Reach-IsSound limit s r)
