-- ===== src/Entrypoint/Counts.antt =====
-- Which services a list of events starts and stops, and which post-stop hooks it runs.
use gokit_services.Common.{
  ℕ, ◌≡◌, refl, ap, ap₂, ◌∙◌, true, false, Bool, Option, none, some, List, [], ◌∷◌, ◌++◌, map,
  append-nil, arith, String,
}
use gokit_services.Common.Errors.{Err}
use gokit_services.Entrypoint.{
  Ctx, background, stopping, Hook, Service, Entrypoint, pre_start, post_start, pre_stop, post_stop,
  Event, hooked, launched, stop_launched, Trigger, signaled, service_failed, World, run_hooks,
  launch_all, log_error, log_trigger, stop_all, stop_phase, wait_end,
}
use gokit_services.Entrypoint.Lifecycle.{hooks_run}

-- The services launched, and those whose `Stop` is called, in the order of the calls.
abbrev pub starts : List Event → List ℕ
starts [] = []
starts (launched n c ∷ es) = n ∷ starts es
starts (_ ∷ es) = starts es

abbrev pub stops : List Event → List ℕ
stops [] = []
stops (stop_launched n c ∷ es) = n ∷ stops es
stops (_ ∷ es) = stops es

-- The post-stop hooks that ran.
abbrev pub post_stops : List Event → List ℕ
post_stops [] = []
post_stops (hooked post_stop n c ∷ es) = n ∷ post_stops es
post_stops (_ ∷ es) = post_stops es

-- The services that implement `Shutdown`.
abbrev pub stoppers : List Service → List ℕ
stoppers [] = []
stoppers (s ∷ ss) = elim s.stop [ none ↦ stoppers ss | some f ↦ s.id ∷ stoppers ss ]

-- The names of the hooks up to the first that fails, that one included.
abbrev pub up_to_failure : Ctx → List Hook → List ℕ
up_to_failure ctx [] = []
up_to_failure ctx (h ∷ hs) = elim (h.call ctx) [
  | none ↦ h.name ∷ up_to_failure ctx hs
  | some x ↦ h.name ∷ []
]

module _ (ys : List Event) where
  starts-append : (xs : List Event) → starts (xs ++ ys) ≡ starts xs ++ starts ys
  starts-append [] = refl
  starts-append (launched n c ∷ es) = ap (λ l. n ∷ l) (starts-append es)
  starts-append (_ ∷ es) = starts-append es

  stops-append : (xs : List Event) → stops (xs ++ ys) ≡ stops xs ++ stops ys
  stops-append [] = refl
  stops-append (stop_launched n c ∷ es) = ap (λ l. n ∷ l) (stops-append es)
  stops-append (_ ∷ es) = stops-append es

  post_stops-append : (xs : List Event) → post_stops (xs ++ ys) ≡ post_stops xs ++ post_stops ys
  post_stops-append [] = refl
  post_stops-append (hooked post_stop n c ∷ es) = ap (λ l. n ∷ l) (post_stops-append es)
  post_stops-append (hooked pre_stop n c ∷ es) = post_stops-append es
  post_stops-append (hooked pre_start n c ∷ es) = post_stops-append es
  post_stops-append (hooked post_start n c ∷ es) = post_stops-append es
  post_stops-append (_ ∷ es) = post_stops-append es

-- What a block of events says of the three counts.
pub record Counts (es : List Event) (a b c : List ℕ) : Type 0 where
  pub began : starts es ≡ a
  pub ended : stops es ≡ b
  pub after : post_stops es ≡ c

pub Counts-append :
    (xs ys : List Event) (a b c a' b' c' : List ℕ)
    → Counts xs a b c
    → Counts ys a' b' c'
    → Counts (xs ++ ys) (a ++ a') (b ++ b') (c ++ c')
Counts-append xs ys a b c a' b' c' p q = record {
  began = starts-append ys xs ∙ ap₂ (λ k l. k ++ l) p.began q.began;
  ended = stops-append ys xs ∙ ap₂ (λ k l. k ++ l) p.ended q.ended;
  after = post_stops-append ys xs ∙ ap₂ (λ k l. k ++ l) p.after q.after;
}

pub hooks_pre_start : (ctx : Ctx) (hs : List Hook) → Counts (hooks_run pre_start ctx hs) [] [] []
hooks_pre_start ctx [] = record { began = refl; ended = refl; after = refl }
hooks_pre_start ctx (h ∷ hs) =
    let r = hooks_pre_start ctx hs in record { began = r.began; ended = r.ended; after = r.after }

pub hooks_post_start : (ctx : Ctx) (hs : List Hook) → Counts (hooks_run post_start ctx hs) [] [] []
hooks_post_start ctx [] = record { began = refl; ended = refl; after = refl }
hooks_post_start ctx (h ∷ hs) =
    let r = hooks_post_start ctx hs in record { began = r.began; ended = r.ended; after = r.after }

pub launch_all-Counts : (ss : List Service) → Counts (launch_all ss) (map (λ s. s.id) ss) [] []
unfolding launch_all
launch_all-Counts [] = record { began = refl; ended = refl; after = refl }
launch_all-Counts (s ∷ ss) =
    let r = launch_all-Counts ss in
    record { began = ap (λ l. s.id ∷ l) r.began; ended = r.ended; after = r.after }

pub log_trigger-Counts : (t : Trigger) → Counts (log_trigger t) [] [] []
unfolding log_trigger
log_trigger-Counts (signaled sig) = record { began = refl; ended = refl; after = refl }
log_trigger-Counts (service_failed x) = record { began = refl; ended = refl; after = refl }
log_trigger-Counts _ = record { began = refl; ended = refl; after = refl }

log_error-Counts : (msg : String) (o : Option Err) → Counts (log_error msg o) [] [] []
unfolding log_error
log_error-Counts msg none = record { began = refl; ended = refl; after = refl }
log_error-Counts msg (some x) = record { began = refl; ended = refl; after = refl }

pre_stop-Counts : (ctx : Ctx) (hs : List Hook) → Counts (run_hooks pre_stop ctx hs).1 [] [] []
unfolding run_hooks
pre_stop-Counts ctx [] = record { began = refl; ended = refl; after = refl }
pre_stop-Counts ctx (h ∷ hs) = ground (arith, pre_stop-Counts ctx hs)

post_stop-Counts :
    (ctx : Ctx) (hs : List Hook)
    → Counts (run_hooks post_stop ctx hs).1 [] [] (up_to_failure ctx hs)
unfolding run_hooks
post_stop-Counts ctx [] = record { began = refl; ended = refl; after = refl }
post_stop-Counts ctx (h ∷ hs) = ground (arith, post_stop-Counts ctx hs)

stop_all-Counts : (ctx : Ctx) (ss : List Service) → Counts (stop_all ctx ss) [] (stoppers ss) []
unfolding stop_all
stop_all-Counts ctx [] = record { began = refl; ended = refl; after = refl }
stop_all-Counts ctx (s ∷ ss) = ground (arith, stop_all-Counts ctx ss)

wait-Counts :
    (b : Bool) (es : List Event) {x y z : List ℕ} → Counts es x y z → Counts (wait_end b ∷ es) x y z
wait-Counts true es c = record { began = c.began; ended = c.ended; after = c.after }
wait-Counts false es c = record { began = c.began; ended = c.ended; after = c.after }

pub stop_phase-Counts :
    (w : World) (e : Entrypoint)
    → Counts (stop_phase w e) [] (stoppers e.services) (up_to_failure background e.on_post_stop)
unfolding stop_phase
stop_phase-Counts w e =
    let ctx = stopping e.shutdown_timeout in
    let post = run_hooks post_stop background e.on_post_stop in
    let ending = wait-Counts w.in_time _ (
      Counts-append post.1 _ _ _ _ _ _ _ (post_stop-Counts background e.on_post_stop)
        (log_error-Counts "post-stop hook error" post.0)) in
    let stopped =
      Counts-append (stop_all ctx e.services) _ _ _ _ _ _ _ (stop_all-Counts ctx e.services)
        ending in
    let pre = run_hooks pre_stop ctx e.on_pre_stop in
    let c = Counts-append pre.1 _ _ _ _ _ _ _ (pre_stop-Counts ctx e.on_pre_stop) (
      Counts-append (log_error "pre-stop hook error" pre.0) _ _ _ _ _ _ _
        (log_error-Counts "pre-stop hook error" pre.0) stopped) in
    record {
      began = c.began;
      ended = c.ended ∙ append-nil (stoppers e.services);
      after = c.after ∙ append-nil (up_to_failure background e.on_post_stop);
    }
