-- ===== src/Engine/Attempts.antt =====
-- `Librarius::run`: how many attempts it takes.
use librarius.Prelude.{ℕ, zero, suc, ◌<◌, ◌≡◌, ◌≢◌, refl, ap, arith}
use librarius.Error.{Error, Result, ok, err, panic, out_of_fuel, tx_aborted, Action}
use librarius.Source.{Source}
use librarius.Tx.{Transaction}
use librarius.Engine.{Librarius, run_once, run}

module _ {S R : Type 0} ⦃src : Source S⦄ (func : Action (Transaction S) R) where
  -- So many attempts in a row abort, and lead from one state to the other.
  pub data Aborted : Librarius S → ℕ → Librarius S → Type 0 where
    here : {l : Librarius S} → Aborted l 0 l
    again :
        {l next last : Librarius S} {n : ℕ}
        → run_once func l ≡ (err tx_aborted, next)
        → Aborted next n last
        → Aborted l (suc n) last

  not_again :
      (attempts : ℕ) (l after : Librarius S) (e : Error)
      → e ≢ tx_aborted
      → run_once func l ≡ (err e, after)
      → run (suc attempts) func l ≡ (err e, after)
  unfolding run
  not_again attempts l after tx_aborted final last = absurd (final refl)
  not_again attempts l after _ final last = ground (arith, last)

  -- If so many attempts in a row abort and the next one ends otherwise, run, allowed more attempts
  -- than those, gives that next one's result and state.
  pub run-run_once :
      (n attempts : ℕ) (l before after : Librarius S) (r : Result R)
      → n < attempts
      → Aborted l n before
      → run_once func before ≡ (r, after)
      → r ≢ err tx_aborted
      → run attempts func l ≡ (r, after)
  unfolding run
  run-run_once n zero l before after r enough aborted last final = absurd (omega arith)
  run-run_once zero (suc attempts) l before after (ok x) enough here last final =
      ground (arith, last)
  run-run_once zero (suc attempts) l before after (err e) enough here last final =
      not_again attempts l after e (λ same. final (ap err same)) last
  run-run_once zero (suc attempts) l before after panic enough here last final =
      ground (arith, last)
  run-run_once zero (suc attempts) l before after out_of_fuel enough here last final =
      ground (arith, last)
  run-run_once (suc n) (suc attempts) l before after r enough (again {next = next} first rest) last
        final =
      ground
        (arith, first, run-run_once n attempts next before after r (omega arith) rest last final)

  -- If as many attempts in a row abort as run is allowed, it has no result and the state is that
  -- after the last of them: run ends only at an attempt that does not abort.
  pub run-out_of_fuel :
      (n : ℕ) (l last : Librarius S) → Aborted l n last → run n func l ≡ (out_of_fuel, last)
  unfolding run
  run-out_of_fuel zero l last here = refl
  run-out_of_fuel (suc n) l last (again {next = next} first rest) =
      ground (arith, first, run-out_of_fuel n next last rest)
