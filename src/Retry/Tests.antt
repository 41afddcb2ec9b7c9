-- ===== src/Retry/Tests.antt =====
-- Runs of the retry loop on a connection that fails twice and then succeeds, and on one that never
-- does.
use gokit_services.Common.{
  ℕ, ◌+◌, ◌*◌, ◌/◌, ◌≡◌, refl, some, none, [], ◌∷◌, arith, leb, ◌==◌, if◌then◌else◌, length,
}
use gokit_services.Common.Int.{pos}
use gokit_services.Common.Errors.{foreign, ctx_canceled, wrap, num, ok, err}
use gokit_services.Retry.{World, Config, do_retry}
use gokit_services.Retry.Calls.{do_retry_first_success, do_retry_exhausted}
use gokit_services.Retry.Waits.{StartsWith, Grows, do_retry_backoff}

abbrev flaky : World ℕ
flaky = record {
  connect = λ n. if leb n 2 then err (foreign n) else ok 7;
  done = λ n. none;
  scale = λ b. b * 3 / 2;
}

abbrev down : World ℕ
down = record {
  connect = λ n. err (foreign n);
  done = λ n. if n == 2 then some ctx_canceled else none;
  scale = λ b. b * 3 / 2;
}

abbrev five : Config
five = record { max_attempts = pos 5; backoff_min = 100; backoff_max = 120 }

abbrev two : Config
two = record { max_attempts = pos 2; backoff_min = 300; backoff_max = 120 }

do_retry_first_success_example :
    ((do_retry flaky five).outcome ≡ ok 7) × ((do_retry flaky five).calls ≡ 3)
do_retry_first_success_example =
    do_retry_first_success flaky five 2 7 (omega arith)
      ((foreign 1, refl), refl, ((foreign 2, refl), refl, tt)) refl

do_retry_exhausted_example :
    ((do_retry down two).outcome
      ≡ err (wrap "retry: failed after %d attempts: %w" (num 2 ∷ []) (foreign 2)))
    × ((do_retry down two).calls ≡ 2)
    × (length (do_retry down two).waits + 1 ≡ 2)
do_retry_exhausted_example =
    do_retry_exhausted down two (foreign 2) ((foreign 1, refl), refl, tt) refl

do_retry_backoff_example :
    StartsWith 100 (do_retry flaky five).waits × Grows 120 (do_retry flaky five).waits
do_retry_backoff_example = do_retry_backoff flaky five (λ b h. refl) (omega arith) (omega arith)
