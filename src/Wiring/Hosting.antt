-- ===== src/Wiring/Hosting.antt =====
-- The servers and the clients of the program, in example/orders-service/cmd/orders-service/main.go and
-- example/orders-service/serverkit/httpwiring.go: who listens and who dials where.
use Prim.Native.String.{◌++◌ as concat}
use mathlib.Core.List.{foldl}
use gokit_services.Common.{
  ℕ, ◌≡◌, refl, ap, ◌++◌, map, sym, subst, ◌∙◌, ◌≢◌, All, Option-cases, inl, inr, String, Option,
  none, some, [], ◌∷◌, arith, List,
}
use gokit_services.Common.Int.{ℤ}
use gokit_services.Common.Errors.{Err, Result, ok, err, Result-cases}
use gokit_services.Http.Server as HttpServer
use gokit_services.Http.Client as HttpClient
use gokit_services.Grpc.Server as GrpcServer
use gokit_services.Grpc.Client as GrpcClient
use gokit_services.Health as Health
use gokit_services.Orders.Jobs.{CleanupJob}
use gokit_services.Wiring.Program.{new_http_server, health_options}

abbrev bind_host : String
bind_host = "0.0.0.0"

abbrev dial_host : String
dial_host = "127.0.0.1"

abbrev http_port : ℕ
http_port = 8080

abbrev grpc_port : ℕ
grpc_port = 9090

abbrev health_port : ℕ
health_port = 8082

abbrev dashboard_port : ℕ
dashboard_port = 8090

-- What the constructors take from outside: `print` is the decimal print of a port, `parse` is
-- `url.Parse`, `make` the `http.Transport` of four settings, `insecure` the option without TLS.
-- Handlers are numbers.
pub record Given (T : Type 0) : Type 0 where
  pub print : ℕ → String
  pub parse : String → Result ℕ
  pub make : ℤ → ℤ → ℤ → ℤ → T
  pub insecure : ℕ
  pub registry : ℕ
  pub api_mux : ℕ
  pub dashboard_mux : HttpClient.Client T → HttpClient.Client T → GrpcClient.Client → ℕ
  pub health_mux : ℕ
  pub cleanup : CleanupJob
  pub optional : List (Option Err)

pub record Hosted (T : Type 0) : Type 0 where
  pub http_srv : HttpServer.Server
  pub grpc_srv : GrpcServer.Server
  pub health_srv : Health.Server
  pub dashboard_srv : HttpServer.Server
  pub grpc_client : GrpcClient.Client
  pub rest_client : HttpClient.Client T
  pub health_client : HttpClient.Client T

-- More probers leave the HTTP server inside as it is.
inner_kept :
    (mux : ℕ) (c : Health.Config) (ps : List (Option Err))
    → HttpServer.new_server mux
        (Health.http_options (foldl Health.apply_option c (map Health.HealthOption.with_prober ps)))
      ≡ HttpServer.new_server mux (Health.http_options c)
unfolding Health.apply_option Health.http_options
inner_kept mux c [] = refl
inner_kept mux c (p ∷ ps) = inner_kept mux (record c { probers = c.probers ++ p ∷ [] }) ps

health_inner :
    (mux registry : ℕ) (cleanup : CleanupJob) (optional : List (Option Err))
    → let inner = (Health.new mux (health_options registry cleanup optional)).inner in
      (inner.port ≡ health_port) × (inner.host ≡ bind_host)
unfolding Health.new Health.configured health_options Health.apply_option Health.http_options
    HttpServer.new_server HttpServer.apply_option
health_inner mux registry cleanup optional =
    let kept = inner_kept mux _ optional in (ap (λ s. s.port) kept, ap (λ s. s.host) kept)

-- No number stands twice.
abbrev AllDiffer : List ℕ → Type 0
AllDiffer [] = Unit
AllDiffer (n ∷ ns) = All (λ k. n ≢ k) ns × AllDiffer ns

module _ {T : Type 0} (g : Given T) where
  unfoldable pub addr : String → ℕ → String
  addr host port = concat host (concat ":" (g.print port))

  -- A panic is `none`.
  unfoldable pub must_http_client : String → Option (HttpClient.Client T)
  must_http_client base_url = elim (HttpClient.new g.parse g.make base_url []) [
    | err e ↦ none
    | ok c ↦ some c
  ]

  abbrev rest_url : String
  rest_url = concat "http://" (addr dial_host http_port)

  abbrev health_url : String
  health_url = concat "http://" (addr dial_host health_port)

  abbrev grpc_client : GrpcClient.Client
  grpc_client =
      GrpcClient.new_client (addr dial_host grpc_port)
        (GrpcClient.with_dial_options (g.insecure ∷ []) ∷ [])

  abbrev hosted_with : HttpClient.Client T → HttpClient.Client T → Hosted T
  hosted_with rest health = record {
    http_srv = new_http_server bind_host http_port "orders-service" g.api_mux g.registry;
    grpc_srv = GrpcServer.new_server (GrpcServer.with_port grpc_port ∷ []);
    health_srv = Health.new g.health_mux (health_options g.registry g.cleanup g.optional);
    dashboard_srv =
        new_http_server bind_host dashboard_port "orders-service-dashboard"
          (g.dashboard_mux rest health grpc_client) g.registry;
    grpc_client = grpc_client;
    rest_client = rest;
    health_client = health;
  }

  -- `main` up to the services, or `none` where it panics.
  unfoldable pub hosted : Option (Hosted T)
  unfolding must_http_client addr
  hosted = elim (must_http_client rest_url) [
    | none ↦ none
    | some rest ↦ elim (must_http_client health_url) [
      | none ↦ none
      | some health ↦ some (hosted_with rest health)
    ]
  ]

  client_base :
      (url : String) (c : HttpClient.Client T)
      → must_http_client url ≡ some c
      → g.parse url ≡ ok c.base_url
  unfolding must_http_client HttpClient.new HttpClient.built HttpClient.wrap_from
  client_base url c h = elim (Result-cases (g.parse url)) [
    | inl (b, e) ↦
        let made : must_http_client url ≡ some (HttpClient.built g.make (HttpClient.defaults b)) =
          rw (must_http_client, HttpClient.new, e) refl in
        e ∙ ap ok (ap (λ o. elim o [ none ↦ b | some d ↦ d.base_url ]) (sym made ∙ h))
    | inr (x, e) ↦
        let none_made : must_http_client url ≡ none =
          rw (must_http_client, HttpClient.new, e) refl in
        cc (none_made, h)
  ]

  -- Each client dials the server that it is for, and every server listens on all interfaces at a
  -- port of its own.
  abbrev pub IsConnected : Hosted T → Type 0
  IsConnected p =
      (p.grpc_client.target ≡ addr dial_host p.grpc_srv.port)
      × (g.parse (concat "http://" (addr dial_host p.http_srv.port)) ≡ ok p.rest_client.base_url)
      × (g.parse (concat "http://" (addr dial_host p.health_srv.inner.port))
          ≡ ok p.health_client.base_url)
      × AllDiffer
          (p.http_srv.port ∷ p.grpc_srv.port ∷ p.health_srv.inner.port ∷ p.dashboard_srv.port ∷ [])
      × All (λ host. host ≡ "0.0.0.0")
          (p.http_srv.host ∷ p.grpc_srv.host ∷ p.health_srv.inner.host ∷ p.dashboard_srv.host ∷ [])

  built-IsConnected :
      (rest health : HttpClient.Client T)
      → must_http_client rest_url ≡ some rest
      → must_http_client health_url ≡ some health
      → IsConnected (hosted_with rest health)
  unfolding HttpServer.new_server HttpServer.apply_option GrpcServer.new_server
      GrpcServer.apply_option GrpcClient.new_client GrpcClient.apply_option Health.new
      Health.configured Health.apply_option Health.http_options new_http_server health_options
  built-IsConnected rest health h k =
      let (port, host) = health_inner g.health_mux g.registry g.cleanup g.optional in
      (
        refl,
        client_base rest_url rest h,
        ap (λ n. g.parse (concat "http://" (addr dial_host n))) port
            ∙ client_base health_url health k,
        rw port (
            (
              (omega arith, (omega arith, (omega arith, tt))),
              ((omega arith, (omega arith, tt)), ((omega arith, tt), (tt, tt))),
            )),
        (refl, (refl, (host, (refl, tt)))),
      )

  hosted-IsConnected : (p : Hosted T) → hosted ≡ some p → IsConnected p
  unfolding hosted
  hosted-IsConnected p h = elim (Option-cases (must_http_client rest_url)) [
    | inl e ↦ let stopped : hosted ≡ none = rw (hosted, e) refl in cc (stopped, h)
    | inr (rest, e) ↦ elim (Option-cases (must_http_client health_url)) [
      | inl f ↦ let stopped : hosted ≡ none = rw (hosted, e, f) refl in cc (stopped, h)
      | inr (health, f) ↦
          let made : hosted ≡ some (hosted_with rest health) = rw (hosted, e, f) refl in
          let same : hosted_with rest health ≡ p =
            ap (λ o. elim o [ none ↦ p | some q ↦ q ]) (sym made ∙ h) in
          subst IsConnected same (built-IsConnected rest health e f)
    ]
  ]
