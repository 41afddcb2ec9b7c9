-- ===== src/Entrypoint/Order.antt =====
-- The order of a run's phases, and the contexts that it hands out.
use gokit_services.Common.{
  ℕ, ◌≤◌, ◌≡◌, refl, sym, subst, append-nil, true, false, Bool, Option, none, some, List, [], ◌∷◌,
  ◌++◌, arith, All, String,
}
use gokit_services.Common.Errors.{Err}
use gokit_services.Entrypoint.{
  Ctx, caller, background, stopping, Hook, Service, Entrypoint, Phase, pre_start, post_start,
  pre_stop, post_stop, Event, hooked, launched, services_canceled, stop_launched, all_done,
  timed_out, logged, Trigger, signaled, service_failed, World, run_hooks, launch_all, log_error,
  log_trigger, stop_all, stop_phase, wait_end, conclude, run,
}

-- The place of an event in the lifecycle of the documentation; log lines have none.
abbrev pub rank : Event → Option ℕ
rank (hooked pre_start n c) = some 1
rank (launched n c) = some 2
rank (hooked post_start n c) = some 3
rank services_canceled = some 4
rank (hooked pre_stop n c) = some 5
rank (stop_launched n c) = some 6
rank all_done = some 7
rank timed_out = some 7
rank (hooked post_stop n c) = some 8
rank (logged msg e) = none

abbrev pub places : List Event → List ℕ
places [] = []
places (e ∷ es) = elim (rank e) [ none ↦ places es | some k ↦ k ∷ places es ]

-- From `low` on, the numbers do not fall.
abbrev pub Ascends : ℕ → List ℕ → Type 0
Ascends low [] = Unit
Ascends low (k ∷ ks) = (low ≤ k) × Ascends k ks

Ascends-mono : (low high : ℕ) (ks : List ℕ) → low ≤ high → Ascends high ks → Ascends low ks
Ascends-mono low high [] h o = tt
Ascends-mono low high (k ∷ ks) h o = (omega arith, o.1)

Ascends-append :
    (low k : ℕ) (js ks : List ℕ)
    → low ≤ k
    → All (λ j. j ≡ k) js
    → Ascends k ks
    → Ascends low (js ++ ks)
Ascends-append low k [] ks h a o = Ascends-mono low k ks h o
Ascends-append low k (j ∷ js) ks h a o = (omega arith, Ascends-append j k js ks (omega arith) a.1 o)

places-append : (xs ys : List Event) → places (xs ++ ys) ≡ places xs ++ places ys
places-append [] ys = refl
places-append (x ∷ xs) ys = ground (arith, places-append xs ys)

-- All places of the events are `k`.
abbrev AreAt : ℕ → List Event → Type 0
AreAt k es = All (λ j. j ≡ k) (places es)

-- The events are in order from `low` on.
abbrev pub InOrder : ℕ → List Event → Type 0
InOrder low es = Ascends low (places es)

InOrder-append :
    (low k : ℕ) (xs ys : List Event) → low ≤ k → AreAt k xs → InOrder k ys → InOrder low (xs ++ ys)
InOrder-append low k xs ys h a o =
    subst (Ascends low) (sym (places-append xs ys))
      (Ascends-append low k (places xs) (places ys) h a o)

InOrder-last : (k : ℕ) (es : List Event) → AreAt k es → InOrder k es
InOrder-last k es a =
    subst (InOrder k) (append-nil es) (InOrder-append k k es [] (omega arith) a tt)

abbrev phase_rank : Phase → ℕ
phase_rank pre_start = 1
phase_rank post_start = 3
phase_rank pre_stop = 5
phase_rank post_stop = 8

run_hooks_at :
    (ph : Phase) (ctx : Ctx) (hs : List Hook) → AreAt (phase_rank ph) (run_hooks ph ctx hs).1
unfolding run_hooks
run_hooks_at pre_start ctx [] = tt
run_hooks_at pre_start ctx (h ∷ hs) = ground (arith, run_hooks_at pre_start ctx hs)
run_hooks_at post_start ctx [] = tt
run_hooks_at post_start ctx (h ∷ hs) = ground (arith, run_hooks_at post_start ctx hs)
run_hooks_at pre_stop ctx [] = tt
run_hooks_at pre_stop ctx (h ∷ hs) = ground (arith, run_hooks_at pre_stop ctx hs)
run_hooks_at post_stop ctx [] = tt
run_hooks_at post_stop ctx (h ∷ hs) = ground (arith, run_hooks_at post_stop ctx hs)

launch_all_at : (ss : List Service) → AreAt 2 (launch_all ss)
unfolding launch_all
launch_all_at [] = tt
launch_all_at (s ∷ ss) = (refl, launch_all_at ss)

log_error_at : (k : ℕ) (msg : String) (o : Option Err) → AreAt k (log_error msg o)
unfolding log_error
log_error_at k msg none = tt
log_error_at k msg (some x) = tt

log_trigger_at : (k : ℕ) (t : Trigger) → AreAt k (log_trigger t)
unfolding log_trigger
log_trigger_at k (signaled sig) = tt
log_trigger_at k (service_failed x) = tt
log_trigger_at k _ = tt

stop_all_at : (ctx : Ctx) (ss : List Service) → AreAt 6 (stop_all ctx ss)
unfolding stop_all
stop_all_at ctx [] = tt
stop_all_at ctx (s ∷ ss) = ground (arith, stop_all_at ctx ss)

wait-InOrder : (b : Bool) (es : List Event) → InOrder 7 es → InOrder 6 (wait_end b ∷ es)
wait-InOrder true es o = (omega arith, o)
wait-InOrder false es o = (omega arith, o)

stop_phase-InOrder : (w : World) (e : Entrypoint) → InOrder 3 (stop_phase w e)
unfolding stop_phase
stop_phase-InOrder w e =
    let ctx = stopping e.shutdown_timeout in
    let pre = run_hooks pre_stop ctx e.on_pre_stop in
    let post = run_hooks post_stop background e.on_post_stop in
    let pre_log = log_error "pre-stop hook error" pre.0 in
    let post_log = log_error "post-stop hook error" post.0 in
    let ending = post.1 ++ post_log in
    let stopped = stop_all ctx e.services ++ (wait_end w.in_time ∷ ending) in
    let last = InOrder-last 8 post_log (log_error_at 8 "post-stop hook error" post.0) in
    let at_end =
      InOrder-append 7 8 post.1 post_log (omega arith)
        (run_hooks_at post_stop background e.on_post_stop) last in
    let at_stop =
      InOrder-append 5 6 (stop_all ctx e.services) (wait_end w.in_time ∷ ending) (omega arith)
        (stop_all_at ctx e.services) (wait-InOrder w.in_time ending at_end) in
    let at_log =
      InOrder-append 5 5 pre_log stopped (omega arith) (log_error_at 5 "pre-stop hook error" pre.0)
        at_stop in
    (
      omega arith,
      InOrder-append 4 5 pre.1 (pre_log ++ stopped) (omega arith)
          (run_hooks_at pre_stop ctx e.on_pre_stop) at_log,
    )

conclude-InOrder :
    (w : World) (e : Entrypoint) (a b : Option Err) (pre post : List Event)
    → AreAt 1 pre
    → AreAt 3 post
    → InOrder 0 (conclude w e (a, pre) (b, post)).1
unfolding conclude
conclude-InOrder w e (some x) b pre post p q =
    Ascends-mono 0 1 (places pre) (omega arith) (InOrder-last 1 pre p)
conclude-InOrder w e none (some x) pre post p q =
    let canceled = InOrder-append 2 3 post (services_canceled ∷ []) (omega arith) q (omega arith) in
    let started =
      InOrder-append 1 2 (launch_all e.services) (post ++ services_canceled ∷ []) (omega arith)
        (launch_all_at e.services) canceled in
    InOrder-append 0 1 pre (launch_all e.services ++ (post ++ services_canceled ∷ [])) (omega arith)
      p started
conclude-InOrder w e none none pre post p q =
    let ended = log_trigger w.trigger ++ stop_phase w e in
    let waited =
      InOrder-append 3 3 (log_trigger w.trigger) (stop_phase w e) (omega arith)
        (log_trigger_at 3 w.trigger) (stop_phase-InOrder w e) in
    let hooked_up = InOrder-append 2 3 post ended (omega arith) q waited in
    let started =
      InOrder-append 1 2 (launch_all e.services) (post ++ ended) (omega arith)
        (launch_all_at e.services) hooked_up in
    InOrder-append 0 1 pre (launch_all e.services ++ (post ++ ended)) (omega arith) p started

-- On every run, whatever fails, the events come in the documented order: pre-start hooks, launches,
-- post-start hooks, cancellation of the services' context, pre-stop hooks, stops, the end of the
-- wait, post-stop hooks.
pub run-InOrder : (w : World) (e : Entrypoint) → InOrder 0 (run w e).1
unfolding run
run-InOrder w e =
    let pre = run_hooks pre_start caller e.on_pre_start in
    let post = run_hooks post_start caller e.on_post_start in
    conclude-InOrder w e pre.0 post.0 pre.1 post.1 (run_hooks_at pre_start caller e.on_pre_start)
      (run_hooks_at post_start caller e.on_post_start)
