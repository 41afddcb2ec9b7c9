-- ===== src/Entrypoint.antt =====
-- pkg/core/entrypoint/entrypoint.go and pkg/core/service/service.go: the lifecycle of a set of
-- services. Hooks and services are code of the caller: what each call returns is a parameter. The
-- goroutines of the services run beside `Run`; what `Run` learns of them comes through `World`.
pub mod Lifecycle
pub mod Counts
pub mod Completion
pub mod Order
pub mod Options
mod Tests
use mathlib.Core.List.{foldl, Mem}
use gokit_services.Common.{
  ℕ, suc, ◌+◌, ◌*◌, ◌<◌, ◌≡◌, String, Bool, true, false, Option, none, some, List, [], ◌∷◌, ◌++◌,
  if◌then◌else◌, length,
}
use gokit_services.Common.Errors.{Err, errorf, wrap, text}
use gokit_services.Common.Int.{ℤ, is_positive, to_ℕ}

-- The contexts that `Run` hands out: the caller's, the services' child of it, the one of the stop
-- phase (detached from the caller's cancellation, with a timeout), and `context.Background()`.
pub data Ctx : Type 0 where
  caller services_ctx background : Ctx
  stopping : ℕ → Ctx

-- `hookFn`. The name stands for the function in the trace.
pub record Hook : Type 0 where
  pub name : ℕ
  pub call : Ctx → Option Err

-- A service: what `Start` returns in the end, and `Stop`, where the `Shutdown` interface is there.
pub record Service : Type 0 where
  pub id : ℕ
  pub start : Ctx → Option Err
  pub stop : Option (Ctx → Option Err)

pub record Entrypoint : Type 0 where
  pub services : List Service
  pub shutdown_timeout : ℕ
  pub logger : ℕ
  pub catch_signals : List String
  pub on_pre_start : List Hook
  pub on_post_start : List Hook
  pub on_pre_stop : List Hook
  pub on_post_stop : List Hook
  pub shutdown_canceled : Bool

pub data EntrypointOption : Type 0 where
  with_services : List Service → EntrypointOption
  with_shutdown_timeout : ℤ → EntrypointOption
  with_logger : ℕ → EntrypointOption
  with_catch_signals : List String → EntrypointOption
  with_pre_start with_post_start with_pre_stop with_post_stop : Hook → EntrypointOption

unfoldable pub apply_option : Entrypoint → EntrypointOption → Entrypoint
apply_option e (with_services svcs) = record e { services = e.services ++ svcs }
apply_option e (with_shutdown_timeout d) =
    if is_positive d then record e { shutdown_timeout = to_ℕ d } else e
apply_option e (with_logger l) = record e { logger = l }
apply_option e (with_catch_signals sigs) = record e { catch_signals = sigs }
apply_option e (with_pre_start fn) = record e { on_pre_start = e.on_pre_start ++ fn ∷ [] }
apply_option e (with_post_start fn) = record e { on_post_start = e.on_post_start ++ fn ∷ [] }
apply_option e (with_pre_stop fn) = record e { on_pre_stop = e.on_pre_stop ++ fn ∷ [] }
apply_option e (with_post_stop fn) = record e { on_post_stop = e.on_post_stop ++ fn ∷ [] }

abbrev pub default_shutdown_timeout : ℕ
default_shutdown_timeout = 60_000_000_000

unfoldable pub defaults : Entrypoint
defaults = record {
  services = [];
  shutdown_timeout = default_shutdown_timeout;
  logger = 0;
  catch_signals = "SIGINT" ∷ "SIGTERM" ∷ [];
  on_pre_start = [];
  on_post_start = [];
  on_pre_stop = [];
  on_post_stop = [];
  shutdown_canceled = false;
}

unfoldable pub new : List EntrypointOption → Entrypoint
unfolding apply_option defaults
new = foldl apply_option defaults

unfoldable pub add_service : Entrypoint → List Service → Entrypoint
add_service e svcs = record e { services = e.services ++ svcs }

unfoldable pub shutdown : Entrypoint → Entrypoint
shutdown e = record e { shutdown_canceled = true }

pub data Phase : Type 0 where
  pre_start post_start pre_stop post_stop : Phase

-- What `Run` does, in order.
pub data Event : Type 0 where
  hooked : Phase → ℕ → Ctx → Event
  launched : ℕ → Ctx → Event
  services_canceled : Event
  stop_launched : ℕ → Ctx → Event
  all_done : Event
  timed_out : Event
  logged : String → Err → Event

-- The case of the `select` in which `Run` waits.
pub data Trigger : Type 0 where
  ctx_done : Err → Trigger
  signaled : String → Trigger
  service_failed : Err → Trigger
  shut_down : Trigger

-- The outside of one run: which trigger comes first, whether the service with that position
-- returned while its context was alive, and whether all goroutines end before the stop timeout.
pub record World : Type 0 where
  pub trigger : Trigger
  pub alive : ℕ → Bool
  pub in_time : Bool

unfoldable pub run_hooks : Phase → Ctx → List Hook → Option Err × List Event
run_hooks ph ctx [] = (none, [])
run_hooks ph ctx (h ∷ hs) =
    let rest = run_hooks ph ctx hs in
    elim (h.call ctx) [
      | some e ↦ (some e, hooked ph h.name ctx ∷ [])
      | none ↦ (rest.0, hooked ph h.name ctx ∷ rest.1)
    ]

unfoldable pub launch_all : List Service → List Event
launch_all [] = []
launch_all (s ∷ ss) = launched s.id services_ctx ∷ launch_all ss

-- The errors that the services' goroutines send to `svcErrs`; `i` is the position of the first.
unfoldable pub svc_errs : World → ℕ → List Service → List Err
svc_errs w i [] = []
svc_errs w i (s ∷ ss) =
    let rest = svc_errs w (suc i) ss in
    elim (s.start services_ctx) [ none ↦ rest | some e ↦ if w.alive i then e ∷ rest else rest ]

unfoldable pub cause : Trigger → Option Err
cause (ctx_done e) = some e
cause (signaled sig) = some (errorf "received signal: %v" (text sig ∷ []))
cause (service_failed e) = some e
cause shut_down = none

-- What the `select` logs about its trigger.
unfoldable pub log_trigger : Trigger → List Event
log_trigger (signaled sig) =
    logged "received signal, shutting down" (errorf "%v" (text sig ∷ [])) ∷ []
log_trigger (service_failed e) = logged "service error, shutting down" e ∷ []
log_trigger _ = []

log_error : String → Option Err → List Event
log_error msg none = []
log_error msg (some e) = logged msg e ∷ []

-- The loop over the services that implement `Shutdown`, which starts a goroutine for each. These run
-- concurrently: of the orders in which they may log their errors, this trace shows one.
unfoldable pub stop_all : Ctx → List Service → List Event
unfolding log_error
stop_all ctx [] = []
stop_all ctx (s ∷ ss) =
    let rest = stop_all ctx ss in
    elim s.stop [
      | none ↦ rest
      | some f ↦ stop_launched s.id ctx ∷ (log_error "service stop error" (f ctx) ++ rest)
    ]

abbrev wait_end : Bool → Event
wait_end true = all_done
wait_end false = timed_out

-- From `svcCancel()` to the end of `Run`.
pub stop_phase : World → Entrypoint → List Event
unfolding run_hooks log_error
stop_phase w e =
    let stop_ctx = stopping e.shutdown_timeout in
    let (pre_err, pre) = run_hooks pre_stop stop_ctx e.on_pre_stop in
    let (post_err, post) = run_hooks post_stop background e.on_post_stop in
    services_canceled
    ∷ (pre
        ++ (log_error "pre-stop hook error" pre_err
            ++ (stop_all stop_ctx e.services
                ++ (wait_end w.in_time ∷ (post ++ log_error "post-stop hook error" post_err)))))

-- The rest of `Run`, by the results of the pre-start and the post-start hooks.
conclude :
    World → Entrypoint → Option Err × List Event → Option Err × List Event → Option Err × List Event
unfolding launch_all stop_all stop_phase log_trigger
conclude w e (some x, pre) started = (some (wrap "pre-start: %w" [] x), pre)
conclude w e (none, pre) (some x, post) = (
  some (wrap "post-start: %w" [] x),
  pre ++ (launch_all e.services ++ (post ++ services_canceled ∷ [])),
)
conclude w e (none, pre) (none, post) = (
  cause w.trigger,
  pre ++ (launch_all e.services ++ (post ++ (log_trigger w.trigger ++ stop_phase w e))),
)

-- The returned error, and what was done.
unfoldable pub run : World → Entrypoint → Option Err × List Event
unfolding run_hooks conclude
run w e =
    conclude w e (run_hooks pre_start caller e.on_pre_start)
      (run_hooks post_start caller e.on_post_start)
