-- ===== src/Entrypoint/Tests.antt =====
-- Runs with two services, of which one can be stopped, and one hook in each phase.
use gokit_services.Common.{ℕ, ◌≡◌, refl, true, false, some, none, [], ◌∷◌}
use gokit_services.Common.Errors.{foreign, errorf, text}
use gokit_services.Entrypoint.{Hook, Service, Entrypoint, World, run, cause, signaled}
use gokit_services.Entrypoint.Counts.{starts, stops, post_stops}
use gokit_services.Entrypoint.Completion.{run_completes}
use gokit_services.Entrypoint.Order.{InOrder, run-InOrder}

abbrev fine : ℕ → Hook
fine n = record { name = n; call = λ ctx. none }

abbrev broken : ℕ → Hook
broken n = record { name = n; call = λ ctx. some (foreign n) }

abbrev server : Service
server = record { id = 1; start = λ ctx. none; stop = some (λ ctx. some (foreign 9)) }

abbrev job : Service
job = record { id = 2; start = λ ctx. none; stop = none }

abbrev both : Entrypoint
both = record {
  services = server ∷ job ∷ [];
  shutdown_timeout = 5;
  logger = 0;
  catch_signals = "SIGINT" ∷ "SIGTERM" ∷ [];
  on_pre_start = fine 10 ∷ [];
  on_post_start = fine 11 ∷ [];
  on_pre_stop = fine 12 ∷ [];
  on_post_stop = fine 13 ∷ [];
  shutdown_canceled = false;
}

abbrev interrupted : World
interrupted = record { trigger = signaled "SIGTERM"; alive = λ i. true; in_time = true }

run_completes_example :
    ((run interrupted both).0 ≡ some (errorf "received signal: %v" (text "SIGTERM" ∷ [])))
    × (starts (run interrupted both).1 ≡ 1 ∷ 2 ∷ [])
    × (stops (run interrupted both).1 ≡ 1 ∷ [])
    × (post_stops (run interrupted both).1 ≡ 13 ∷ [])
unfolding cause
run_completes_example = run_completes interrupted both (refl, tt) (refl, tt)

run-InOrder_example : InOrder 0 (run interrupted both).1
run-InOrder_example = run-InOrder interrupted both

abbrev unprepared : Entrypoint
unprepared = record both { on_pre_start = fine 10 ∷ broken 20 ∷ fine 21 ∷ [] }

abbrev unsettled : Entrypoint
unsettled = record both { on_post_start = broken 20 ∷ fine 21 ∷ [] }
