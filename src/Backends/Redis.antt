-- ===== src/Backends/Redis.antt =====
-- pkg/redisservice/service.go: the Redis client.
use mathlib.Core.List.{foldl}
use gokit_services.Common.{
  ℕ, String, Bool, true, false, Option, none, some, List, [], ◌∷◌, if◌then◌else◌,
}
use gokit_services.Common.Errors.{Err, errorf, wrap, wrap_both, Result, ok, err, wrap_some}
use gokit_services.Common.Int.{ℤ, pos, is_positive}
use gokit_services.Retry
use gokit_services.Backends.{Driver, retrying}

pub record Service : Type 0 where
  pub dsn : String
  pub pool_size : ℤ
  pub app_name : String
  pub retry : Retry.Config
  pub metrics_interval : ℤ
  pub logger : ℕ
  pub registerer : ℕ
  pub client : Option ℕ
  pub shut_down : Bool

pub data ServiceOption : Type 0 where
  with_pool_size : ℤ → ServiceOption
  with_retry : Retry.Config → ServiceOption
  with_metrics_interval : ℤ → ServiceOption
  with_app_name : String → ServiceOption
  with_logger : ℕ → ServiceOption
  with_prometheus_registerer : ℕ → ServiceOption

unfoldable pub apply_option : Service → ServiceOption → Service
apply_option s (with_pool_size n) = record s { pool_size = n }
apply_option s (with_retry cfg) = record s { retry = cfg }
apply_option s (with_metrics_interval d) = record s { metrics_interval = d }
apply_option s (with_app_name name) = record s { app_name = name }
apply_option s (with_logger l) = record s { logger = l }
apply_option s (with_prometheus_registerer r) = record s { registerer = r }

unfoldable pub new : String → List ServiceOption → Service
unfolding apply_option
new dsn = foldl apply_option (record {
  dsn = dsn;
  pool_size = pos 0;
  app_name = "";
  retry = Retry.default_config;
  metrics_interval = pos 15_000_000_000;
  logger = 0;
  registerer = 0;
  client = none;
  shut_down = false;
})

-- `redis.Options`: what the URL says, and the pool size where `Start` sets one.
pub record ClientOptions : Type 0 where
  pub parsed : ℕ
  pub pool_size : Option ℤ

abbrev pub configured : Service → ℕ → ClientOptions
configured s n = record {
  parsed = n;
  pool_size = if is_positive s.pool_size then some s.pool_size else none;
}

ping_error : Err → Option Err → Err
ping_error e none = wrap "redisservice: ping: %w" [] e
ping_error e (some x) = wrap_both "redisservice: ping: %w; close: %w" e x

unfoldable pub pinged : Driver ClientOptions ℕ → ℕ → Option Err → Result ℕ × List ℕ
unfolding ping_error
pinged d c none = (ok c, [])
pinged d c (some e) = (err (ping_error e (d.close c)), c ∷ [])

-- One attempt: its result, and the clients that it closed.
unfoldable pub connect_once : Driver ClientOptions ℕ → ClientOptions → ℕ → Result ℕ × List ℕ
unfolding pinged
connect_once d opts attempt = let c = d.create opts attempt in pinged d c (d.ping attempt c)

unfoldable pub connected : Service → Result ℕ → Option Err × Service
connected s (err e) = (some (wrap "redisservice: connect: %w" [] e), s)
connected s (ok c) = (none, record s { client = some c })

-- `Start` up to the loop that reports the client's statistics, after which it returns nil.
unfoldable pub start : Driver ClientOptions ℕ → Service → Option Err × Service
unfolding connected
start d s = elim (d.parse s.dsn) [
  | err e ↦ (some (wrap "redisservice: parse dsn: %w" [] e), s)
  | ok n ↦
      connected s
        (Retry.do_retry {0} (retrying d (λ attempt. (connect_once d (configured s n) attempt).0))
          s.retry).outcome
]

-- `close` is what `client.Close` returns.
unfoldable pub stop : Option Err → Service → Option Err × Service
stop close s = elim s.client [
  | none ↦ (none, s)
  | some c ↦ elim s.shut_down [
    | true ↦ (none, s)
    | false ↦ (wrap_some "redisservice: stop: %w" close, record s { shut_down = true })
  ]
]

unfoldable pub probe : (ℕ → Option Err) → Service → Option Err
probe ping s = elim s.client [
  | none ↦ some (errorf "redisservice: not connected" [])
  | some c ↦ wrap_some "redisservice: probe: %w" (ping c)
]
