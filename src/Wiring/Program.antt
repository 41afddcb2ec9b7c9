-- ===== src/Wiring/Program.antt =====
-- example/orders-service/cmd/orders-service/main.go and serverkit/httpwiring.go: what the program puts
-- together, and when its readiness probe says yes.
use mathlib.Core.List.{foldl}
use gokit_services.Common.{
  ℕ, ◌≡◌, refl, sym, subst, ◌∙◌, ◌++◌, append-nil, append_assoc, inl, inr, ◌↔◌, String, true, false,
  Option, none, some, List, [], ◌∷◌, map, All, arith,
}
use gokit_services.Common.Int.{pos}
use gokit_services.Common.Errors.{Err, Result}
use gokit_services.Http.Server as HttpServer
use gokit_services.Http.Server.{Request, serve, final_status}
use gokit_services.Health as Health
use gokit_services.Health.{HealthOption, Probing, probe_all, Reach, handle_readyz}
use gokit_services.Health.Readiness.{failures, readyz_exact}
use gokit_services.Orders.Jobs.{CleanupJob, probe}
use gokit_services.Entrypoint as Entrypoint
use gokit_services.Entrypoint.{Service, Hook, EntrypointOption}
use gokit_services.Workerpool as Workerpool
use gokit_services.Workerpool.{PoolOption}
use gokit_services.Periodic as Periodic
use gokit_services.Periodic.{ServiceOption}

-- `NewHTTPServer`
unfoldable pub new_http_server : String → ℕ → String → ℕ → ℕ → HttpServer.Server
new_http_server bind_host port app_name handler registry = HttpServer.new_server handler (
    HttpServer.with_host bind_host
    ∷ HttpServer.with_port port
    ∷ HttpServer.with_app_name app_name
    ∷ HttpServer.with_prometheus_registerer registry
    ∷ [])

-- The options of the health server: the probe of the cleanup job, then those of the optional services.
unfoldable pub health_options : ℕ → CleanupJob → List (Option Err) → List HealthOption
health_options registry cleanup optional =
    HealthOption.with_host "0.0.0.0"
    ∷ HealthOption.with_port 8082
    ∷ HealthOption.with_app_name "orders-service"
    ∷ HealthOption.with_prober (probe cleanup)
    ∷ HealthOption.with_prometheus_registerer (some registry)
    ∷ map HealthOption.with_prober optional

-- The services of the program, by what they are in `main`.
pub record Parts : Type 0 where
  pub http_srv : Service
  pub grpc_srv : Service
  pub health_srv : Service
  pub dashboard_srv : Service
  pub grpc_client : Service
  pub pool : Service
  pub cleanup : Service
  pub optional : List Service

abbrev pub services : Parts → List Service
services p =
    (p.http_srv ∷ p.grpc_srv ∷ p.health_srv ∷ p.dashboard_srv ∷ p.grpc_client ∷ p.pool ∷ p.cleanup
      ∷ [])
    ++ p.optional

-- The entrypoint; `prepares` is the hook that calls `Prepare`.
unfoldable pub entrypoint : Hook → Parts → Entrypoint.Entrypoint
entrypoint prepares p = Entrypoint.new (
    EntrypointOption.with_services (services p)
    ∷ EntrypointOption.with_shutdown_timeout (pos 10_000_000_000)
    ∷ EntrypointOption.with_post_start prepares
    ∷ [])

-- The pool of the order processor, and the periodic service of the cleanup job.
unfoldable pub processor_pool : Workerpool.Pool
processor_pool = Workerpool.new 4 (PoolOption.with_drain_on_stop ∷ [])

unfoldable pub cleanup_service : ℕ → Periodic.Service
cleanup_service callback =
    Periodic.new 5_000_000_000 callback (ServiceOption.with_immediate_start ∷ [])

-- The probers of options that only add probers.
probers_added :
    (c : Health.Config) (ps : List (Option Err))
    → (foldl Health.apply_option c (map HealthOption.with_prober ps)).probers ≡ c.probers ++ ps
unfolding Health.apply_option
probers_added c [] = sym (append-nil c.probers)
probers_added c (p ∷ ps) =
    probers_added (record c { probers = c.probers ++ p ∷ [] }) ps
    ∙ append_assoc c.probers (p ∷ []) ps

probers_registered :
    (mux registry : ℕ) (cleanup : CleanupJob) (optional : List (Option Err))
    → (Health.new mux (health_options registry cleanup optional)).probers ≡ probe cleanup ∷ optional
unfolding Health.new Health.configured health_options Health.apply_option
probers_registered mux registry cleanup optional = probers_added _ optional

module _ (text_of : Err → String) where
  failures-All : (rs : List (Option Err)) → failures text_of rs ≡ [] → All (λ r. r ≡ none) rs
  failures-All [] h = tt
  failures-All (none ∷ rs) h = (refl, failures-All rs h)
  failures-All (some e ∷ rs) h = ground (arith, h)

  All-failures : (rs : List (Option Err)) → All (λ r. r ≡ none) rs → failures text_of rs ≡ []
  All-failures [] h = refl
  All-failures (none ∷ rs) (e, h) = All-failures rs h
  All-failures (some e ∷ rs) (x, h) = ground (arith, x)

probe-warmed_up : (cleanup : CleanupJob) → ((probe cleanup ≡ none) ↔ (cleanup.warmed_up ≡ true))
unfolding probe
probe-warmed_up cleanup = (λ h. ground (arith, h), λ h. ground (arith, h))

-- The readiness probe of the program, in whatever order its probers end, is answered with 200 exactly
-- if the cleanup job has gone through a sweep and every optional service says that it is there.
pub program_ready :
    (text_of : Err → String) (marshal : List String → Result ℕ) (n : ℕ) (req : Request)
    (mux registry : ℕ) (cleanup : CleanupJob) (optional : List (Option Err)) (s : Probing)
    → let health = Health.new mux (health_options registry cleanup optional) in
      Reach text_of (probe_all health.probers) s
      → s.running ≡ []
      → let w = serve n req (record { actions = handle_readyz marshal s.errs; panics = false }) in
        (final_status w.wire ≡ 200 ↔ ((cleanup.warmed_up ≡ true) × All (λ r. r ≡ none) optional))
program_ready text_of marshal n req mux registry cleanup optional s way e =
    let same = probers_registered mux registry cleanup optional in
    let (p, type, noted, answer) =
      readyz_exact text_of marshal n req (probe cleanup ∷ optional) s
        (subst (λ ps. Reach text_of (probe_all ps) s) same way) e in
    (
      λ h. elim answer [
        | inl (clean, ok_sent) ↦
            let (job, rest) = failures-All text_of (probe cleanup ∷ optional) clean in
            ((probe-warmed_up cleanup).0 job, rest)
        | inr (dirty, bad_sent) ↦ absurd (omega (arith, h, bad_sent))
      ],
      λ (warm, rest). elim answer [
        | inl (clean, ok_sent) ↦ ok_sent
        | inr (dirty, bad_sent) ↦ absurd (
            dirty (
              All-failures text_of (probe cleanup ∷ optional)
                ((probe-warmed_up cleanup).1 warm, rest)))
      ],
    )
