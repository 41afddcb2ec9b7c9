-- ===== src/Health/Forwarding.antt =====
-- What the HTTP server inside pkg/healthserver/server.go is configured with.
use mathlib.Core.List.{foldl}
use gokit_services.Common.{
  ℕ, ◌≡◌, refl, ap, sym, ◌∙◌, eq_iff, String, str_eq, Bool, true, false, not, Option, none, some,
  List, [], ◌∷◌, ◌++◌, ◌==◌, if◌then◌else◌,
}
use gokit_services.Http.Server as HttpServer
use gokit_services.Http.Server.{ServerOption, new_server}
use gokit_services.Health.{Config, HealthOption, configured, when, given, http_options, new}

foldl-append :
    (s : HttpServer.Server) (xs ys : List ServerOption)
    → foldl HttpServer.apply_option s (xs ++ ys)
      ≡ foldl HttpServer.apply_option (foldl HttpServer.apply_option s xs) ys
foldl-append s [] ys = refl
foldl-append s (x ∷ xs) ys = foldl-append (HttpServer.apply_option s x) xs ys

abbrev or_default : ℕ → Option ℕ → ℕ
or_default d x = elim x [ none ↦ d | some n ↦ n ]

-- What each part of the forwarded options does.
port_forwarded :
    (s : HttpServer.Server) (b : Bool) (p : ℕ)
    → foldl HttpServer.apply_option s (when (not b) (ServerOption.with_port p))
      ≡ record s { port = if b then s.port else p }
unfolding HttpServer.apply_option
port_forwarded s true p = refl
port_forwarded s false p = refl

host_forwarded :
    (s : HttpServer.Server) (b : Bool) (host : String)
    → foldl HttpServer.apply_option s (when (not b) (ServerOption.with_host host))
      ≡ record s { host = if b then s.host else host }
unfolding HttpServer.apply_option
host_forwarded s true host = refl
host_forwarded s false host = refl

app_name_forwarded :
    (s : HttpServer.Server) (b : Bool) (name : String)
    → (b ≡ true → s.app_name ≡ name)
    → foldl HttpServer.apply_option s (when (not b) (ServerOption.with_app_name name))
      ≡ record s { app_name = name }
unfolding HttpServer.apply_option
app_name_forwarded s true name same = ap (λ n. record s { app_name = n }) (same refl)
app_name_forwarded s false name same = refl

registerer_forwarded :
    (s : HttpServer.Server) (x : Option ℕ)
    → foldl HttpServer.apply_option s (given x ServerOption.with_prometheus_registerer)
      ≡ record s { registerer = or_default s.registerer x }
unfolding HttpServer.apply_option
registerer_forwarded s none = refl
registerer_forwarded s (some n) = refl

logger_forwarded :
    (s : HttpServer.Server) (x : Option ℕ)
    → foldl HttpServer.apply_option s (given x ServerOption.with_logger)
      ≡ record s { logger = or_default s.logger x }
unfolding HttpServer.apply_option
logger_forwarded s none = refl
logger_forwarded s (some n) = refl

forwarded :
    (c : Config) (s : HttpServer.Server)
    → s.app_name ≡ ""
    → foldl HttpServer.apply_option s (http_options c) ≡ record s {
      port = if c.port == 0 then s.port else c.port;
      host = if str_eq c.host "" then s.host else c.host;
      app_name = c.app_name;
      registerer = or_default s.registerer c.registerer;
      logger = or_default s.logger c.logger;
    }
unfolding http_options
forwarded c s bare =
    let t : HttpServer.Server = record s {
      port = if c.port == 0 then s.port else c.port;
      host = if str_eq c.host "" then s.host else c.host;
    } in
    rw
      (
        foldl-append,
        foldl-append,
        foldl-append,
        foldl-append,
        port_forwarded,
        host_forwarded,
        app_name_forwarded t (str_eq c.app_name "") c.app_name
            (λ e. bare ∙ sym ((eq_iff c.app_name "").0 e)),
        registerer_forwarded,
        logger_forwarded,
      )
      refl

-- The server inside listens on the port and host that the options of the health server give, and on
-- 8080 and all addresses where they give none; it has the application name, the registerer and the
-- logger of the options, or the default ones (both known as 0), and the timeouts of every HTTP server.
inner_as_configured :
    (mux : ℕ) (opts : List HealthOption)
    → let c = configured opts in
      (new mux opts).inner ≡ record (new_server mux []) {
        port = if c.port == 0 then 8080 else c.port;
        host = if str_eq c.host "" then "0.0.0.0" else c.host;
        app_name = c.app_name;
        registerer = or_default 0 c.registerer;
        logger = or_default 0 c.logger;
      }
unfolding new new_server
inner_as_configured mux opts = forwarded (configured opts) (new_server mux []) refl
