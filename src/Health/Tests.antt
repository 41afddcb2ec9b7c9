-- ===== src/Health/Tests.antt =====
-- The readiness theorem at a concrete run of two probers.
use gokit_services.Common.{
  ◌≡◌, ◌≢◌, ◌⊎◌, refl, String, false, Option, none, some, List, [], ◌∷◌, length,
}
use gokit_services.Common.Errors.{Err, foreign, ok}
use mathlib.Core.List.{Perm}
use gokit_services.Http.Server.{Request, serve, final_status}
use gokit_services.Health.{Probing, probe_all, Reach, here, next, answers, handle_readyz}
use gokit_services.Health.Readiness.{failures, readyz_exact}

abbrev told : Err → String
told e = "no answer"

abbrev two : List (Option Err)
two = some (foreign 1) ∷ none ∷ []

-- The second ends first.
abbrev ended : Probing
ended = record { running = []; errs = "no answer" ∷ [] }

ended-Reach : Reach told (probe_all two) ended
ended-Reach =
    next (next here (answers (probe_all two) (some (foreign 1) ∷ []) [] none refl))
      (answers _ [] [] (some (foreign 1)) refl)

abbrev ask : Request
ask = record { pattern_in = ""; pattern_out = "GET /readyz"; http_method = "GET"; path = "/readyz" }

readyz_exact_example :
    let w =
      serve 80 ask
        (record { actions = handle_readyz (λ es. ok (length es)) ended.errs; panics = false }) in
    let fails = failures told two in
    Perm fails ended.errs
    × (w.wire.sent_type ≡ some "application/json")
    × (w.status_code ≡ final_status w.wire)
    × (((fails ≡ []) × (final_status w.wire ≡ 200)) ⊎ ((fails ≢ []) × (final_status w.wire ≡ 503)))
readyz_exact_example = readyz_exact told (λ es. ok (length es)) 80 ask two ended ended-Reach refl
