-- ===== src/Backends/Db.antt =====
-- pkg/dbservice/service.go: the PostgreSQL connection pool.
use mathlib.Core.List.{foldl}
use gokit_services.Common.{ℕ, String, Bool, true, false, Option, none, some, List, [], ◌∷◌}
use gokit_services.Common.Errors.{Err, errorf, wrap, Result, ok, err, wrap_some}
use gokit_services.Common.Int.{ℤ, pos}
use gokit_services.Retry
use gokit_services.Backends.{Driver, retrying}

pub record Service : Type 0 where
  pub dsn : String
  pub max_conns : ℤ
  pub min_conns : ℤ
  pub app_name : String
  pub retry : Retry.Config
  pub metrics_interval : ℤ
  pub logger : ℕ
  pub registerer : ℕ
  pub pool : Option ℕ
  pub shut_down : Bool

pub data ServiceOption : Type 0 where
  with_max_conns : ℤ → ServiceOption
  with_min_conns : ℤ → ServiceOption
  with_retry : Retry.Config → ServiceOption
  with_metrics_interval : ℤ → ServiceOption
  with_app_name : String → ServiceOption
  with_logger : ℕ → ServiceOption
  with_prometheus_registerer : ℕ → ServiceOption

unfoldable pub apply_option : Service → ServiceOption → Service
apply_option s (with_max_conns n) = record s { max_conns = n }
apply_option s (with_min_conns n) = record s { min_conns = n }
apply_option s (with_retry cfg) = record s { retry = cfg }
apply_option s (with_metrics_interval d) = record s { metrics_interval = d }
apply_option s (with_app_name name) = record s { app_name = name }
apply_option s (with_logger l) = record s { logger = l }
apply_option s (with_prometheus_registerer r) = record s { registerer = r }

unfoldable pub new : String → List ServiceOption → Service
unfolding apply_option
new dsn = foldl apply_option (record {
  dsn = dsn;
  max_conns = pos 10;
  min_conns = pos 2;
  app_name = "";
  retry = Retry.default_config;
  metrics_interval = pos 15_000_000_000;
  logger = 0;
  registerer = 0;
  pool = none;
  shut_down = false;
})

-- `pgxpool.Config`: what the DSN says, and the limits that `Start` sets.
pub record PoolConfig : Type 0 where
  pub parsed : ℕ
  pub max_conns : ℤ
  pub min_conns : ℤ

abbrev pub configured : Service → ℕ → PoolConfig
configured s n = record { parsed = n; max_conns = s.max_conns; min_conns = s.min_conns }

unfoldable pub pinged : ℕ → Option Err → Result ℕ × List ℕ
pinged p none = (ok p, [])
pinged p (some e) = (err (wrap "dbservice: ping: %w" [] e), p ∷ [])

unfoldable pub created : Driver PoolConfig (Result ℕ) → ℕ → Result ℕ → Result ℕ × List ℕ
unfolding pinged
created d attempt (err e) = (err (wrap "dbservice: create pool: %w" [] e), [])
created d attempt (ok p) = pinged p (d.ping attempt p)

-- One attempt: its result, and the pools that it closed.
unfoldable pub connect_once : Driver PoolConfig (Result ℕ) → PoolConfig → ℕ → Result ℕ × List ℕ
unfolding created
connect_once d cfg attempt = created d attempt (d.create cfg attempt)

unfoldable pub connected : Service → Result ℕ → Option Err × Service
connected s (err e) = (some (wrap "dbservice: connect: %w" [] e), s)
connected s (ok p) = (none, record s { pool = some p })

-- `Start` up to the loop that reports the pool's statistics, after which it returns nil.
unfoldable pub start : Driver PoolConfig (Result ℕ) → Service → Option Err × Service
unfolding connected
start d s = elim (d.parse s.dsn) [
  | err e ↦ (some (wrap "dbservice: parse dsn: %w" [] e), s)
  | ok n ↦
      connected s
        (Retry.do_retry {0} (retrying d (λ attempt. (connect_once d (configured s n) attempt).0))
          s.retry).outcome
]

-- `expired` is the context's error, if it is done before the pool is closed.
unfoldable pub stop : Option Err → Service → Option Err × Service
stop expired s = elim s.pool [
  | none ↦ (none, s)
  | some p ↦ (wrap_some "dbservice: stop: %w" expired, record s { shut_down = true })
]

unfoldable pub probe : (ℕ → Option Err) → Service → Option Err
probe ping s = elim s.pool [
  | none ↦ some (errorf "dbservice: not connected" [])
  | some p ↦ wrap_some "dbservice: probe: %w" (ping p)
]
