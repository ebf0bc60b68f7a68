-- ===== src/Source/File.antt =====
-- src/source/file_source.rs: a source in a file. `std::fs::File` is a parameter, an interface of the
-- calls that the source makes; an I/O error is its number.
use librarius.Prelude.{ℕ, true, false, List, ◌⊎◌, inl, inr, ◌==◌, length, if◌then◌else◌}
use librarius.Error.{
  Error, file_io, source_error, partial_io, not_byte_addressable, Result, ok, err, Action, and_then,
  lift, ◌>>=◌, ◌>>◌,
}
use librarius.Source.{Source}

pub record FileApi (F : Type 0) : Type 0 where
  -- `OpenOptions` with read, write, create and no truncation, on a path
  pub open_options : List ℕ → ℕ ⊎ F
  pub set_len : ℕ → F → (ℕ ⊎ Unit {0}) × F
  -- `SeekFrom::Start`
  pub seek : ℕ → F → (ℕ ⊎ Unit {0}) × F
  -- the bytes that one call of `read` put into a buffer of this length
  pub read : ℕ → F → (ℕ ⊎ List ℕ) × F
  -- how many bytes one call of `write` took
  pub write : List ℕ → F → (ℕ ⊎ ℕ) × F
  pub flush : F → (ℕ ⊎ Unit {0}) × F
  -- the length in the metadata
  pub len : F → ℕ ⊎ ℕ

abbrev map_err : {A : Type 0} → (ℕ → Error) → ℕ ⊎ A → Result A
map_err f (inl e) = err (f e)
map_err f (inr a) = ok a

abbrev io : {F A : Type 0} → (F → (ℕ ⊎ A) × F) → Action F A
io call f = let (r, f') = call f in (map_err file_io r, f')

module _ {F : Type 0} ⦃api : FileApi F⦄ where
  -- `FileSource::new`. The file is the state of every call below.
  abbrev pub new : List ℕ → ℕ → Result F
  new path len = elim (api.open_options path) [
    | inl e ↦ err source_error
    | inr file ↦
        let (done, file') = api.set_len len file in and_then (map_err file_io done) λ _. ok file'
  ]

  unfoldable pub read : ℕ → ℕ → Action F (List ℕ)
  read offset len = do
    io (api.seek offset)
    bytes ← io (api.read len)
    lift (if length bytes == len then ok bytes else err partial_io)

  unfoldable pub write : ℕ → List ℕ → Action F (Unit {0})
  write offset bytes = do
    io (api.seek offset)
    n ← io (api.write bytes)
    lift (if n == length bytes then ok tt else err partial_io)

  instance abbrev pub file_source : Source F
  file_source = record {
    is_byte_addressable = λ _. false;
    is_persistent = λ _. true;
    perf_level = λ _. 0;
    length = λ f. map_err file_io (api.len f);
    read = read;
    write = write;
    flush = io api.flush;
    at = λ _ _ _. err not_byte_addressable;
    at_mut = λ _ _ _. err not_byte_addressable;
    flush_slice = λ _ _. err not_byte_addressable;
  }
