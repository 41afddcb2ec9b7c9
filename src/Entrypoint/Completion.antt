-- ===== src/Entrypoint/Completion.antt =====
-- A run whose first hooks succeed: what `Run` returns, and which services it starts and stops.
use gokit_services.Common.{
  ℕ, suc, ◌≤◌, ◌≡◌, ap, ap₂, ◌∙◌, List, [], ◌∷◌, ◌++◌, map, append-nil, arith, length, All,
}
use gokit_services.Entrypoint.{
  caller, background, Service, Entrypoint, pre_start, post_start, Event, World, launch_all,
  svc_errs, cause, log_trigger, stop_phase, conclude, run,
}
use gokit_services.Entrypoint.Lifecycle.{Succeeds, hooks_run, run_hooks-All}
use gokit_services.Entrypoint.Counts.{
  Counts, Counts-append, starts, stops, post_stops, stoppers, up_to_failure, hooks_pre_start,
  hooks_post_start, launch_all-Counts, log_trigger-Counts, stop_phase-Counts,
}

abbrev completed_trace : World → Entrypoint → List Event
completed_trace w e =
    hooks_run pre_start caller e.on_pre_start
    ++ (launch_all e.services
        ++ (hooks_run post_start caller e.on_post_start
            ++ (log_trigger w.trigger ++ stop_phase w e)))

completed-Counts :
    (w : World) (e : Entrypoint)
    → Counts
        (completed_trace w e)
        (map (λ s. s.id) e.services)
        (stoppers e.services)
        (up_to_failure background e.on_post_stop)
completed-Counts w e =
    let c =
      Counts-append (hooks_run pre_start caller e.on_pre_start) _ _ _ _ _ _ _
        (hooks_pre_start caller e.on_pre_start)
        (Counts-append (launch_all e.services) _ _ _ _ _ _ _ (launch_all-Counts e.services) (
          Counts-append (hooks_run post_start caller e.on_post_start) _ _ _ _ _ _ _
            (hooks_post_start caller e.on_post_start)
            (Counts-append (log_trigger w.trigger) _ _ _ _ _ _ _ (log_trigger-Counts w.trigger)
              (stop_phase-Counts w e)))) in
    record {
      began = c.began ∙ append-nil (map (λ s. s.id) e.services);
      ended = c.ended;
      after = c.after;
    }

-- If the hooks before the wait succeed, `Run` returns the cause of the shutdown, whatever the stop
-- phase meets: failing pre-stop hooks, failing `Stop` calls, a timeout, failing post-stop hooks.
-- Every service is launched once, in order; a goroutine that calls `Stop` is started once for
-- exactly the services that have it; and the post-stop hooks run up to the first failing one.
pub run_completes :
    (w : World) (e : Entrypoint)
    → All (Succeeds caller) e.on_pre_start
    → All (Succeeds caller) e.on_post_start
    → ((run w e).0 ≡ cause w.trigger)
      × (starts (run w e).1 ≡ map (λ s. s.id) e.services)
      × (stops (run w e).1 ≡ stoppers e.services)
      × (post_stops (run w e).1 ≡ up_to_failure background e.on_post_stop)
unfolding run
run_completes w e p q =
    let all_run =
      ap₂ (conclude w e) (run_hooks-All pre_start caller e.on_pre_start p)
        (run_hooks-All post_start caller e.on_post_start q) in
    let c = completed-Counts w e in
    (
      ap (λ r. r.0) all_run,
      ap (λ r. starts r.1) all_run ∙ c.began,
      ap (λ r. stops r.1) all_run ∙ c.ended,
      ap (λ r. post_stops r.1) all_run ∙ c.after,
    )

-- The buffer of `svcErrs`, as long as the list of services, has room for every error that is sent:
-- no service's goroutine blocks on it.
svc_errs_fit : (w : World) (i : ℕ) (ss : List Service) → length (svc_errs w i ss) ≤ length ss
unfolding svc_errs
svc_errs_fit w i [] = omega arith
svc_errs_fit w i (s ∷ ss) = ground (arith, svc_errs_fit w (suc i) ss)
