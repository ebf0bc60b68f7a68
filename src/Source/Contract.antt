-- ===== src/Source/Contract.antt =====
-- What the layers above rely on in a byte-addressable source: it is an array of bytes. The trait
-- states it in the names of its methods only.
use librarius.Prelude.{ℕ, ◌+◌, ◌≤◌, ◌<◌, ◌≡◌, true, List, length, Bytes, slice, store}
use librarius.Usize.{word}
use librarius.Error.{ok}
use librarius.Source.{Source}

pub record Addressable (S : Type 0) ⦃src : Source S⦄ : Type 0 where
  pub content : S → Bytes
  pub size : S → ℕ
  -- the source with the bytes at an offset overwritten
  pub put : ℕ → List ℕ → S → S
  pub content-put : (o : ℕ) (bs : List ℕ) (s : S) → content (put o bs s) ≡ store (content s) o bs
  pub size-put : (o : ℕ) (bs : List ℕ) (s : S) → size (put o bs s) ≡ size s
  pub is_byte_addressable-put :
      (o : ℕ) (bs : List ℕ) (s : S)
      → src.is_byte_addressable (put o bs s) ≡ src.is_byte_addressable s
  pub is_persistent-put :
      (o : ℕ) (bs : List ℕ) (s : S) → src.is_persistent (put o bs s) ≡ src.is_persistent s
  pub at_lem :
      (o n : ℕ) (s : S)
      → src.is_byte_addressable s ≡ true
      → size s < word
      → o + n ≤ size s
      → src.at o n s ≡ ok (slice (content s) o n)
  pub at_mut_lem :
      (o n : ℕ) (s : S)
      → src.is_byte_addressable s ≡ true
      → size s < word
      → o + n ≤ size s
      → src.at_mut o n s ≡ ok (slice (content s) o n, λ bs. put o bs s)
  pub read_lem :
      (o n : ℕ) (s : S)
      → src.is_byte_addressable s ≡ true
      → size s < word
      → o + n ≤ size s
      → src.read o n s ≡ (ok (slice (content s) o n), s)
  pub write_lem :
      (o : ℕ) (bs : List ℕ) (s : S)
      → src.is_byte_addressable s ≡ true
      → size s < word
      → o + length bs ≤ size s
      → src.write o bs s ≡ (ok tt, put o bs s)
  pub flush_lem : (s : S) → src.is_byte_addressable s ≡ true → src.flush s ≡ (ok tt, s)
  pub length_lem : (s : S) → src.is_byte_addressable s ≡ true → src.length s ≡ ok (size s)
