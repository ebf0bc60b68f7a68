-- ===== src/Source.antt =====
-- src/source/mod.rs: the trait `Source`, as the interface through which everything above reaches
-- its storage, and `Page`. A `&mut self` method is an action on the source. `at_mut` returns the
-- slice as its contents and a function that gives the source after new contents are written.
pub mod Contract
pub mod Memory
pub mod File
pub mod Header
pub mod Allocator
use librarius.Prelude.{ℕ, ◌-◌, Bool, Option, none, some, List, ltb, if◌then◌else◌}
use librarius.Usize.{wrapping_add}
use librarius.Error.{Result, Action}

-- `close`, and `offset` on a raw address, are not called by the program and are left out.
pub record Source (S : Type 0) : Type 0 where
  pub is_byte_addressable : S → Bool
  pub is_persistent : S → Bool
  pub perf_level : S → ℕ
  pub length : S → Result ℕ
  -- the offset, and the length of the buffer that is filled
  pub read : ℕ → ℕ → Action S (List ℕ)
  pub write : ℕ → List ℕ → Action S (Unit {0})
  pub flush : Action S (Unit {0})
  pub at : ℕ → ℕ → S → Result (List ℕ)
  pub at_mut : ℕ → ℕ → S → Result (List ℕ × (List ℕ → S))
  pub flush_slice : List ℕ → S → Result (Unit {0})

pub record Page : Type 0 where
  pub offset : ℕ
  pub len : ℕ

-- `Page::new`
abbrev pub new_page : ℕ → ℕ → Page
new_page offset len = record { offset = offset; len = len }

-- `Page::split`: the page that is cut off, and what is left of this one.
unfoldable pub split : Page → ℕ → Option Page × Page
split page len =
    if ltb page.len len
    then (none, page)
    else (some (new_page page.offset len), new_page (wrapping_add page.offset len) (page.len - len))
