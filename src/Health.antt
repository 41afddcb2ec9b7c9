-- ===== src/Health.antt =====
-- pkg/healthserver/server.go: options, the two probes and what is forwarded to the HTTP server inside.
-- A prober is known by what its `Probe` returns; loggers and registerers are known by numbers.
pub mod Readiness
pub mod Forwarding
mod Tests
use mathlib.Core.List.{foldl}
use gokit_services.Common.{
  ℕ, ◌++◌, ◌≡◌, String, str_eq, Bool, not, Option, none, some, List, [], ◌∷◌, ◌==◌, if◌then◌else◌,
}
use gokit_services.Common.Errors.{Err, Result, ok, err, wrap_some}
use gokit_services.Http.Server as HttpServer
use gokit_services.Http.Server.{ServerOption, new_server, Action, sets_type, writes_header, writes}

pub record Config : Type 0 where
  pub port : ℕ
  pub host : String
  pub app_name : String
  pub registerer : Option ℕ
  pub logger : Option ℕ
  pub probers : List (Option Err)

pub data HealthOption : Type 0 where
  with_prober : Option Err → HealthOption
  with_port : ℕ → HealthOption
  with_host with_app_name : String → HealthOption
  with_prometheus_registerer with_logger : Option ℕ → HealthOption

unfoldable pub apply_option : Config → HealthOption → Config
apply_option c (with_prober p) = record c { probers = c.probers ++ p ∷ [] }
apply_option c (with_port port) = record c { port = port }
apply_option c (with_host host) = record c { host = host }
apply_option c (with_app_name name) = record c { app_name = name }
apply_option c (with_prometheus_registerer reg) = record c { registerer = reg }
apply_option c (with_logger l) = record c { logger = l }

unfoldable pub configured : List HealthOption → Config
unfolding apply_option
configured = foldl apply_option (record {
  port = 0;
  host = "";
  app_name = "";
  registerer = none;
  logger = some 0;
  probers = [];
})

abbrev pub when : Bool → ServerOption → List ServerOption
when b o = if b then o ∷ [] else []

abbrev pub given : Option ℕ → (ℕ → ServerOption) → List ServerOption
given x o = elim x [ none ↦ [] | some n ↦ o n ∷ [] ]

unfoldable pub http_options : Config → List ServerOption
http_options c =
    when (not (c.port == 0)) (ServerOption.with_port c.port)
    ++ (when (not (str_eq c.host "")) (ServerOption.with_host c.host)
        ++ (when (not (str_eq c.app_name "")) (ServerOption.with_app_name c.app_name)
            ++ (given c.registerer ServerOption.with_prometheus_registerer
                ++ given c.logger ServerOption.with_logger)))

-- `handler` of the inner server stands for the mux with the two routes.
pub record Server : Type 0 where
  pub probers : List (Option Err)
  pub logger : Option ℕ
  pub inner : HttpServer.Server

unfoldable pub new : ℕ → List HealthOption → Server
unfolding configured http_options
new mux opts =
    let c = configured opts in
    record { probers = c.probers; logger = c.logger; inner = new_server mux (http_options c) }

-- `handleHealthz`, with the bytes that it writes.
abbrev pub handle_healthz : List Action
handle_healthz = sets_type "application/json" ∷ writes_header 200 ∷ writes 15 ∷ []

-- The goroutines of `handleReadyz` that still probe, and the errors so far.
pub record Probing : Type 0 where
  pub running : List (Option Err)
  pub errs : List String

abbrev pub probe_all : List (Option Err) → Probing
probe_all probers = record { running = probers; errs = [] }

-- What one goroutine appends; `text_of` is `Error()`.
abbrev pub noted : (Err → String) → Option Err → List String → List String
noted text_of none errs = errs
noted text_of (some e) errs = errs ++ text_of e ∷ []

-- Any goroutine may be the next to end.
pub data Step (text_of : Err → String) : Probing → Probing → Type 0 where
  answers :
      (s : Probing) (xs ys : List (Option Err)) (r : Option Err)
      → s.running ≡ xs ++ r ∷ ys
      → Step text_of s (record { running = xs ++ ys; errs = noted text_of r s.errs })

pub data Reach (text_of : Err → String) (s : Probing) : Probing → Type 0 where
  here : Reach text_of s s
  next : {t u : Probing} → Reach text_of s t → Step text_of t u → Reach text_of s u

-- `handleReadyz` once all have ended; `marshal` is `json.Marshal` of the document with the errors,
-- which gives the number of its bytes.
unfoldable pub handle_readyz : (List String → Result ℕ) → List String → List Action
handle_readyz marshal [] = sets_type "application/json" ∷ writes_header 200 ∷ writes 18 ∷ []
handle_readyz marshal (e ∷ errs) =
    sets_type "application/json"
    ∷ writes_header 503
    ∷ elim (marshal (e ∷ errs)) [ ok n ↦ writes n ∷ [] | err failed ↦ [] ]

-- `Start` and `Stop`, by what the server inside returns.
unfoldable pub start : Option Err → Option Err
start = wrap_some "healthserver start: %w"

unfoldable pub stop : Option Err → Option Err
stop = wrap_some "healthserver stop: %w"
