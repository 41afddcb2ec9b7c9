-- ===== src/Metrics.antt =====
-- pkg/internal/prom/register.go, and the loops of the connecting services that report statistics on a
-- ticker. The registry of Prometheus is a parameter; the labeled gauges are functions of the label.
pub mod Registration
pub mod Sharing
mod Tests
use gokit_services.Common.{
  ℕ, ◌≡◌, refl, String, str_eq, eq_refl, Option, none, some, List, [], ◌∷◌, ◌++◌, if◌then◌else◌,
}
use gokit_services.Common.Errors.{Err}

-- What `Register` answers.
pub data Registered (C : Type 0) : Type 0 where
  registered : Registered C
  already : C → Registered C
  refused : Err → Registered C

-- `none` is a panic. `cast` is the type assertion on the collector that is there.
unfoldable pub settled : {C R : Type 0} → (C → Option C) → C → Registered C → R → Option C × R
settled cast collector registered reg = (some collector, reg)
settled cast collector (already existing) reg = (cast existing, reg)
settled cast collector (refused e) reg = (none, reg)

unfoldable pub register_or_reuse :
    {C R : Type 0} → (C → R → Registered C × R) → (C → Option C) → C → R → Option C × R
unfolding settled
register_or_reuse register cast collector reg =
    let (answer, reg') = register collector reg in settled cast collector answer reg'

-- `pgxpool.Stat`, and the gauges that show it.
pub record PoolStat : Type 0 where
  pub total_conns : ℕ
  pub idle_conns : ℕ
  pub acquired_conns : ℕ
  pub constructing_conns : ℕ
  pub max_conns : ℕ
  pub acquire_count : ℕ

pub record DbGauges : Type 0 where
  pub pool_conns : String → String → ℕ
  pub pool_max_conns : String → ℕ
  pub pool_acquire_cnt : String → ℕ

abbrev pub set_at : {A : Type 0} → String → A → (String → A) → String → A
set_at k v f j = if str_eq k j then v else f j

-- A gauge with two labels: the application and the state of the connections.
abbrev pub set_state : String → String → ℕ → (String → String → ℕ) → String → String → ℕ
set_state app state n f = set_at app (set_at state n (f app)) f

-- The body of the loop in dbservice, at one tick.
unfoldable pub report_db : String → PoolStat → DbGauges → DbGauges
report_db app stat g = record {
  pool_conns = set_state app "constructing" stat.constructing_conns (
      set_state app "acquired" stat.acquired_conns (
        set_state app "idle" stat.idle_conns
          (set_state app "total" stat.total_conns g.pool_conns)));
  pool_max_conns = set_at app stat.max_conns g.pool_max_conns;
  pool_acquire_cnt = set_at app stat.acquire_count g.pool_acquire_cnt;
}

-- `redis.PoolStats`, and the gauges that show it.
pub record RedisStats : Type 0 where
  pub total_conns : ℕ
  pub idle_conns : ℕ
  pub hits : ℕ
  pub misses : ℕ

pub record RedisGauges : Type 0 where
  pub pool_conns : String → String → ℕ
  pub pool_hits : String → ℕ
  pub pool_misses : String → ℕ

unfoldable pub report_redis : String → RedisStats → RedisGauges → RedisGauges
report_redis app stats g = record {
  pool_conns =
      set_state app "idle" stats.idle_conns (set_state app "total" stats.total_conns g.pool_conns);
  pool_hits = set_at app stats.hits g.pool_hits;
  pool_misses = set_at app stats.misses g.pool_misses;
}

-- The topic and the lag that a Kafka reader reports, and `pollLag` at one tick.
unfoldable pub report_lag : String → String × ℕ → (String → String → ℕ) → String → String → ℕ
report_lag app (topic, lag) g = set_state app topic lag g

-- A loop over its ticks, until the context is done.
unfoldable pub report_all : {A G : Type 0} → (A → G → G) → List A → G → G
report_all report [] g = g
report_all report (s ∷ stats) g = report_all report stats (report s g)

-- After any ticks the gauges of an application show its last snapshot, in all four states.
db_gauges_last :
    (app : String) (before : List PoolStat) (stat : PoolStat) (g : DbGauges)
    → let h = report_all (report_db app) (before ++ stat ∷ []) g in
      (h.pool_conns app "total" ≡ stat.total_conns)
      × (h.pool_conns app "idle" ≡ stat.idle_conns)
      × (h.pool_conns app "acquired" ≡ stat.acquired_conns)
      × (h.pool_conns app "constructing" ≡ stat.constructing_conns)
      × (h.pool_max_conns app ≡ stat.max_conns)
      × (h.pool_acquire_cnt app ≡ stat.acquire_count)
unfolding report_all report_db
db_gauges_last app [] stat g = rw (eq_refl app) (refl, refl, refl, refl, refl, refl)
db_gauges_last app (s ∷ before) stat g = db_gauges_last app before stat (report_db app s g)
