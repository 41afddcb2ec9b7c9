-- ===== src/Retry.antt =====
-- pkg/internal/retry/retry.go: the exponential-backoff loop that connects to an external service.
-- Durations are nanoseconds and not negative. The product with 1.5 is taken in float64 by the code:
-- `scale` stands for it, and is used through its value on durations that float64 holds exactly.
pub mod Calls
pub mod Waits
mod Tests
use gokit_services.Common.{
  ℕ, zero, suc, ◌+◌, ◌-◌, String, min, Bool, true, false, Option, none, some, List, [], ◌∷◌, ◌==◌,
  if◌then◌else◌,
}
use gokit_services.Common.Errors.{Err, wrap, num, Result, ok, err}
use gokit_services.Common.Int.{ℤ, pos, is_positive, to_ℕ}

pub record Config : Type 0 where
  pub max_attempts : ℤ
  pub backoff_min : ℕ
  pub backoff_max : ℕ

unfoldable pub default_config : Config
default_config = record {
  max_attempts = pos 10;
  backoff_min = 500_000_000;
  backoff_max = 30_000_000_000;
}

-- What happens outside: the result of the attempt with that number, and the winner of the `select`
-- after it: `none` when the timer fires, `some e` when the context is done with error `e`.
pub record World {ℓ} (A : Type ℓ) : Type ℓ where
  pub connect : ℕ → Result A
  pub done : ℕ → Option Err
  pub scale : ℕ → ℕ

-- The value that `Do` returns, how often `connect` was called, and the durations given to
-- `time.After`, in order.
pub record Run {ℓ} (A : Type ℓ) : Type ℓ where
  pub outcome : Result A
  pub calls : ℕ
  pub waits : List ℕ

module _ {ℓ} {A : Type ℓ} (w : World A) (cfg : Config) where
  -- `min(time.Duration(float64(backoff)*backoffMultiplier), cfg.BackoffMax)`
  unfoldable pub next_backoff : ℕ → ℕ
  next_backoff backoff = min (w.scale backoff) cfg.backoff_max

  -- The same run with one more wait in front of it.
  abbrev waited : ℕ → Run A → Run A
  waited backoff r = record r { waits = backoff ∷ r.waits }

  abbrev failed : ℕ → Err → Run A
  failed attempt e = record {
    outcome = err (wrap "retry: failed after %d attempts: %w" (num attempt ∷ []) e);
    calls = attempt;
    waits = [];
  }

  abbrev stopped : ℕ → ℕ → Err → Run A
  stopped attempt backoff e = record {
    outcome = err (wrap "retry: context canceled after %d attempts: %w" (num attempt ∷ []) e);
    calls = attempt;
    waits = backoff ∷ [];
  }

  abbrev connected : ℕ → A → Run A
  connected attempt a = record { outcome = ok a; calls = attempt; waits = [] }

  -- The loop from attempt number `attempt`, with `left` attempts after it.
  unfoldable pub loop : ℕ → ℕ → ℕ → Run A
  unfolding next_backoff
  loop zero attempt backoff = elim (w.connect attempt) [
    | ok a ↦ connected attempt a
    | err e ↦ failed attempt e
  ]
  loop (suc left) attempt backoff = elim (w.connect attempt) [
    | ok a ↦ connected attempt a
    | err e ↦ elim (w.done attempt) [
      | some d ↦ stopped attempt backoff d
      | none ↦ waited backoff (loop left (attempt + 1) (next_backoff backoff))
    ]
  ]

-- `if maxAttempts <= 0 { maxAttempts = 1 }`
abbrev pub attempts : Config → ℕ
attempts cfg = if is_positive cfg.max_attempts then to_ℕ cfg.max_attempts else 1

unfoldable pub do_retry {ℓ} : {A : Type ℓ} → World A → Config → Run A
unfolding loop
do_retry w cfg = loop w cfg (attempts cfg - 1) 1 cfg.backoff_min
