-- ===== src/Metrics/Registration.antt =====
-- `initMetrics` of pkg/dbservice, pkg/redisservice, pkg/http/server, pkg/kafka/producer and
-- pkg/kafka/consumer: the collectors that each makes, and what instances that share a registry get.
-- The registry of Prometheus is a parameter.
use gokit_services.Common.{
  ℕ, ◌+◌, String, Bool, true, false, Option, none, some, List, [], ◌∷◌, if◌then◌else◌,
}
use gokit_services.Metrics.{Registered, register_or_reuse}

-- Histograms have the bounds of their buckets, in thousandths.
pub data Kind : Type 0 where
  counter_vec gauge_vec : Kind
  histogram_vec : List ℕ → Kind

-- What Prometheus compares: collectors with the same name, help and labels are the same.
pub record Desc : Type 0 where
  pub name : String
  pub help : String
  pub labels : List String

pub record Metric : Type 0 where
  pub desc : Desc
  pub kind : Kind

-- A collector is an object: each call of a constructor makes another one.
pub record Collector : Type 0 where
  pub id : ℕ
  pub metric : Metric

abbrev metric : String → String → Kind → List String → Metric
metric name help kind labels = record {
  desc = record { name = name; help = help; labels = labels };
  kind = kind;
}

abbrev latency : List ℕ
latency = 1 ∷ 5 ∷ 10 ∷ 25 ∷ 50 ∷ 100 ∷ 250 ∷ 500 ∷ 1000 ∷ 2500 ∷ 5000 ∷ []

unfoldable pub producer_metrics : List Metric
producer_metrics =
    metric "kafka_produce_messages_total" "Total number of successfully produced messages."
      counter_vec ("kafka_service" ∷ "topic" ∷ [])
    ∷ metric "kafka_produce_errors_total" "Total number of failed produce attempts." counter_vec
        ("kafka_service" ∷ "topic" ∷ [])
    ∷ metric "kafka_produce_duration_seconds" "The latency of produce calls."
        (histogram_vec latency) ("kafka_service" ∷ "topic" ∷ [])
    ∷ []

unfoldable pub consumer_metrics : List Metric
consumer_metrics =
    metric "kafka_consume_messages_total"
      "Total number of successfully handled and committed messages." counter_vec
      ("kafka_service" ∷ "topic" ∷ [])
    ∷ metric "kafka_consume_errors_total"
        "Total number of messages whose handler returned an error (not committed)." counter_vec
        ("kafka_service" ∷ "topic" ∷ [])
    ∷ metric "kafka_consume_duration_seconds" "The latency of message handlers."
        (histogram_vec latency) ("kafka_service" ∷ "topic" ∷ [])
    ∷ metric "kafka_consume_lag" "Consumer lag as reported by the reader (polled snapshot)."
        gauge_vec ("kafka_service" ∷ "topic" ∷ [])
    ∷ []

unfoldable pub db_metrics : List Metric
db_metrics =
    metric "db_pool_conns" "Number of connections in the pool by state." gauge_vec
      ("db_service" ∷ "state" ∷ [])
    ∷ metric "db_pool_max_conns" "Maximum size of the connection pool." gauge_vec
        ("db_service" ∷ [])
    ∷ metric "db_pool_acquire_count"
        "Cumulative number of successful connection acquires (polled snapshot, not a true counter)."
        gauge_vec ("db_service" ∷ [])
    ∷ metric "db_probe_duration_seconds" "The latency of readiness probe pings."
        (histogram_vec latency) ("db_service" ∷ [])
    ∷ []

unfoldable pub redis_metrics : List Metric
redis_metrics =
    metric "redis_pool_conns" "Number of connections in the pool by state." gauge_vec
      ("redis_service" ∷ "state" ∷ [])
    ∷ metric "redis_pool_hits"
        "Cumulative number of free connections found in the pool (polled snapshot, not a true counter)."
        gauge_vec ("redis_service" ∷ [])
    ∷ metric "redis_pool_misses"
        "Cumulative number of times a free connection was not found (polled snapshot, not a true counter)."
        gauge_vec ("redis_service" ∷ [])
    ∷ metric "redis_probe_duration_seconds" "The latency of readiness probe pings."
        (histogram_vec latency) ("redis_service" ∷ [])
    ∷ []

unfoldable pub http_metrics : List Metric
http_metrics =
    metric "http_panic_recovery_total" "Total number of recovered panics." counter_vec
      ("http_service" ∷ "http_method" ∷ "http_handler" ∷ [])
    ∷ metric "http_request_duration_seconds" "The latency of the HTTP requests."
        (histogram_vec (5 ∷ 10 ∷ 25 ∷ 50 ∷ 100 ∷ 250 ∷ 500 ∷ 1000 ∷ 2500 ∷ 5000 ∷ 10000 ∷ []))
        ("http_service" ∷ "http_handler" ∷ "http_method" ∷ "http_code" ∷ [])
    ∷ metric "http_requests_inflight"
        "The number of inflight requests being handled at the same time." gauge_vec
        ("http_service" ∷ "http_handler" ∷ [])
    ∷ metric "http_response_size_bytes" "The size of the HTTP responses."
        (histogram_vec (
          100_000 ∷ 1_000_000 ∷ 10_000_000 ∷ 100_000_000 ∷ 1_000_000_000 ∷ 10_000_000_000
          ∷ 100_000_000_000 ∷ 1_000_000_000_000 ∷ []))
        ("http_service" ∷ "http_handler" ∷ "http_method" ∷ "http_code" ∷ [])
    ∷ []

-- The type assertion: the Go type of a collector does not tell the buckets.
abbrev pub same_kind : Kind → Kind → Bool
same_kind counter_vec counter_vec = true
same_kind gauge_vec gauge_vec = true
same_kind (histogram_vec bs) (histogram_vec cs) = true
same_kind _ _ = false

abbrev pub cast_as : Kind → Collector → Option Collector
cast_as kind c = if same_kind kind c.metric.kind then some c else none

abbrev pub with_first : Collector → Option (List Collector) → Option (List Collector)
with_first c none = none
with_first c (some cs) = some (c ∷ cs)

abbrev pub continued :
    {R : Type 0} → Option Collector → R → Option (List Collector) × R → Option (List Collector) × R
continued none s rest = (none, s)
continued (some c) s rest = (with_first c rest.0, rest.1)

module _ {R : Type 0} (register : Collector → R → Registered Collector × R) where
  abbrev pub made : ℕ → Metric → R → Option Collector × R
  made n m r = register_or_reuse register (cast_as m.kind) (record { id = n; metric = m }) r

  -- `initMetrics` of the metrics, with collectors that are numbered from `n`; `none` is a panic,
  -- which leaves the rest out.
  unfoldable pub init_metrics : ℕ → List Metric → R → Option (List Collector) × R
  init_metrics n [] r = (some [], r)
  init_metrics n (m ∷ ms) r =
      let (c, s) = made n m r in let rest = init_metrics (n + 1) ms s in continued c s rest
