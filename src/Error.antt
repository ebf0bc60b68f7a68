-- ===== src/Error.antt =====
-- src/error.rs: the error values, and how a fallible call ends. `errno::Errno` and `io::Error` come
-- from elsewhere and are kept as their numbers. A panic (a failed `assert!`, an `unwrap` of nothing,
-- an index out of range) is an outcome of its own, and so is a recursion that the given fuel cuts.
use librarius.Prelude.{ℕ, Bool, true, false, Option, none, some}

pub data Error : Type 0 where
  source_error : Error
  memory_alloc : (errno : ℕ) → Error
  invalid_source : Error
  invalid_memory : Error
  wrong_pagesize : (is expected : ℕ) → Error
  file_io : (err : ℕ) → Error
  partial_io : Error
  not_byte_addressable : Error
  no_available_memory : Error
  no_persistent_storage : Error
  invalid_logical_address : Error
  invalid_flush : Error
  root_exists : Error
  open_on_uninitialized : Error
  allocation_too_large : Error
  context_too_large : Error
  tx_aborted : Error

-- `Result<A, Error>`, with the two ways in which a call does not come back.
pub data Result (A : Type 0) : Type 0 where
  ok : A → Result A
  err : Error → Result A
  panic : Result A
  out_of_fuel : Result A

-- `Option::ok_or`
abbrev pub ok_or : {A : Type 0} → Option A → Error → Result A
ok_or none e = err e
ok_or (some a) e = ok a

-- A call on a state `S`. What it changed stays changed when it ends in an error.
abbrev pub Action : Type 0 → Type 0 → Type 0
Action S A = S → Result A × S

abbrev pub and_then : {A B : Type 0} → Result A → (A → Result B) → Result B
and_then (ok a) f = f a
and_then (err e) f = err e
and_then panic f = panic
and_then out_of_fuel f = out_of_fuel

module _ {S A : Type 0} where
  abbrev pub pure : A → Action S A
  pure a s = (ok a, s)

  abbrev pub lift : Result A → Action S A
  lift r s = (r, s)

  abbrev pub gets : (S → A) → Action S A
  gets f s = (ok (f s), s)

abbrev pub modify : {S : Type 0} → (S → S) → Action S (Unit {0})
modify f s = (ok tt, f s)

-- `assert!`
abbrev pub assert : {S : Type 0} → Bool → Action S (Unit {0})
assert true s = (ok tt, s)
assert false s = (panic, s)

abbrev pub continue : {S A B : Type 0} → Result A × S → (A → Action S B) → Result B × S
continue (ok a, s) f = f a s
continue (err e, s) f = (err e, s)
continue (panic, s) f = (panic, s)
continue (out_of_fuel, s) f = (out_of_fuel, s)

infixl 5 ◌>>=◌ ◌>>◌
abbrev pub ◌>>=◌ : {S A B : Type 0} → Action S A → (A → Action S B) → Action S B
◌>>=◌ m f s = continue (m s) f

abbrev pub ◌>>◌ : {S B : Type 0} → Action S (Unit {0}) → Action S B → Action S B
m >> k = m >>= λ _. k

-- A call on a part of the state.
abbrev pub within : {S T A : Type 0} → (S → T) → (T → S → S) → Action T A → Action S A
within get put m s = let (r, t) = m (get s) in (r, put t s)
