-- ===== src/Vos/Store.antt =====
-- src/vos.rs: `VersionedObjectStore`, the counter of versions, and the test of a page.
pub mod Publish
use librarius.Prelude.{ℕ, Bool, List, not, ◌==◌}
use librarius.Usize.{wrapping_add}
use librarius.Error.{Action, modify, gets, within, ◌>>=◌, ◌>>◌}
use librarius.Source.{Source}
use librarius.Las.Space.{LogicalAddressSpace}
use librarius.Vos.Place.{local}
use librarius.Vos.Version.{Version, commit}
use librarius.Vos.Object.{total, header_from_slice}
use librarius.Vos.Reader.{version_fuel}

-- The address space with the counter beside it, as `Librarius` holds them.
pub record Versioned (S : Type 0) : Type 0 where
  pub las : LogicalAddressSpace S
  pub version : ℕ

-- `VersionedObjectStore::new`
abbrev pub initial_version : ℕ
initial_version = 1

-- `VersionedObjectStore::valid_page`
unfoldable pub valid_page : List ℕ → Bool
valid_page bytes = not (total (header_from_slice bytes).size == 0)

abbrev pub on_space : {S A : Type 0} → Action (LogicalAddressSpace S) A → Action (Versioned S) A
on_space {S} = within {S = Versioned S} (λ v. v.las) (λ las v. record v { las = las })

-- `commit_version`: the lock on the counter is held throughout, so it is one step.
unfoldable pub commit_version :
    {S : Type 0} ⦃src : Source S⦄
    → Version
    → Action (Versioned S) (Unit {0})
    → Action (Versioned S) (Unit {0})
commit_version version validate = do
  modify (λ v. record v { version = wrapping_add v.version 1 })
  validate
  number ← gets (λ v. v.version)
  _ ← on_space (commit version_fuel (local version) number)
  modify (λ v. v)
