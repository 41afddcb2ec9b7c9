-- ===== src/Entrypoint/Lifecycle.antt =====
-- What `Run` returns and which services it starts and stops, on each of its ways.
use gokit_services.Common.{◌≡◌, refl, ap, ap₂, ◌∙◌, none, some, List, [], ◌∷◌, ◌++◌, map, All}
use gokit_services.Common.Errors.{Err, wrap}
use gokit_services.Entrypoint.{
  Ctx, caller, Hook, Entrypoint, Phase, pre_start, post_start, Event, hooked, services_canceled,
  World, run_hooks, launch_all, conclude, run,
}

abbrev pub Succeeds : Ctx → Hook → Type 0
Succeeds ctx h = h.call ctx ≡ none

abbrev pub hooks_run : Phase → Ctx → List Hook → List Event
hooks_run ph ctx = map (λ h. hooked ph h.name ctx)

pub run_hooks-All :
    (ph : Phase) (ctx : Ctx) (hs : List Hook)
    → All (Succeeds ctx) hs
    → run_hooks ph ctx hs ≡ (none, hooks_run ph ctx hs)
unfolding run_hooks
run_hooks-All ph ctx [] a = refl
run_hooks-All ph ctx (h ∷ hs) a = rw (a.0, run_hooks-All ph ctx hs a.1)

-- `runHooks` stops at the first failing hook and returns its error.
run_hooks_first :
    (ph : Phase) (ctx : Ctx) (before : List Hook) (h : Hook) (after : List Hook) (x : Err)
    → All (Succeeds ctx) before
    → h.call ctx ≡ some x
    → run_hooks ph ctx (before ++ h ∷ after) ≡ (some x, hooks_run ph ctx (before ++ h ∷ []))
unfolding run_hooks
run_hooks_first ph ctx [] h after x a e = rw e
run_hooks_first ph ctx (b ∷ before) h after x a e =
    rw (a.0, run_hooks_first ph ctx before h after x a.1 e)

-- If a pre-start hook fails, `Run` returns its error, wrapped, having run the hooks up to that one
-- and done nothing else: no service is started, no service is stopped, no other hook runs.
run_pre_start_fails :
    (w : World) (e : Entrypoint) (before : List Hook) (h : Hook) (after : List Hook) (x : Err)
    → e.on_pre_start ≡ before ++ h ∷ after
    → All (Succeeds caller) before
    → h.call caller ≡ some x
    → run w e ≡ (some (wrap "pre-start: %w" [] x), hooks_run pre_start caller (before ++ h ∷ []))
unfolding run
run_pre_start_fails w e before h after x p a f =
    ap (λ r. conclude w e r (run_hooks post_start caller e.on_post_start))
      (ap (run_hooks pre_start caller) p ∙ run_hooks_first pre_start caller before h after x a f)

-- If a post-start hook fails after the pre-start hooks succeeded, `Run` returns its error, wrapped:
-- all services have been launched and their context is canceled, but no `Stop` is called and no
-- pre-stop or post-stop hook runs.
pub run_post_start_fails :
    (w : World) (e : Entrypoint) (before : List Hook) (h : Hook) (after : List Hook) (x : Err)
    → All (Succeeds caller) e.on_pre_start
    → e.on_post_start ≡ before ++ h ∷ after
    → All (Succeeds caller) before
    → h.call caller ≡ some x
    → run w e ≡ (
      some (wrap "post-start: %w" [] x),
      hooks_run pre_start caller e.on_pre_start
          ++ (launch_all e.services
              ++ (hooks_run post_start caller (before ++ h ∷ []) ++ services_canceled ∷ [])),
    )
unfolding run
run_post_start_fails w e before h after x s p a f =
    ap₂ (conclude w e) (run_hooks-All pre_start caller e.on_pre_start s)
      (ap (run_hooks post_start caller) p ∙ run_hooks_first post_start caller before h after x a f)
