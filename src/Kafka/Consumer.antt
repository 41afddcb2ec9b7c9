-- ===== src/Kafka/Consumer.antt =====
-- pkg/kafka/consumer/consumer.go: one reader whose messages go to handlers through the worker pool. A
-- handler is known by a number.
pub mod Working
pub mod Intake
use mathlib.Core.List.{foldl}
use gokit_services.Common.{
  ℕ, ◌++◌, ◌≡◌, String, Bool, true, false, Option, none, some, List, [], ◌∷◌, map, ◌||◌,
  if◌then◌else◌,
}
use gokit_services.Common.Errors.{
  Err, errorf, wrap, Result, ok, err, wrap_some, errors_is, is_ctx_canceled, is_closed_pipe,
}
use gokit_services.Common.Int.{ℤ, pos, is_positive, to_ℕ}
use gokit_services.Common.Assoc.{Assoc, lookup, insert}
use gokit_services.Retry
use gokit_services.Workerpool
use gokit_services.Kafka.{TlsSaslConfig, SaslMechanism, unset, Net, Dialer, new_dialer, probe}
use gokit_services.Kafka.Producer.{Bytes, StartWorld, connect}

-- `kafka.Message` as the reader gives it, and what the handlers see of it.
pub record Fetched : Type 0 where
  pub topic : String
  pub partition : ℕ
  pub offset : ℕ
  pub key : Bytes
  pub value : Bytes
  pub headers : List (String × Bytes)
  pub time : ℕ

pub record Message : Type 0 where
  pub topic : String
  pub partition : ℕ
  pub offset : ℕ
  pub key : Bytes
  pub value : Bytes
  pub headers : Assoc Bytes
  pub time : ℕ

unfoldable pub header_map : Assoc Bytes → List (String × Bytes) → Assoc Bytes
header_map seen [] = seen
header_map seen ((k, v) ∷ hs) = header_map (insert k v seen) hs

unfoldable pub to_message : Fetched → Message
unfolding header_map
to_message m = record {
  topic = m.topic;
  partition = m.partition;
  offset = m.offset;
  key = m.key;
  value = m.value;
  headers = header_map [] m.headers;
  time = m.time;
}

pub record Reader : Type 0 where
  pub brokers : List String
  pub group : String
  pub group_topics : List String
  pub dialer : Dialer

pub record Consumer : Type 0 where
  pub brokers : List String
  pub consumer_group : String
  pub app_name : String
  pub tls_cfg : TlsSaslConfig
  pub retry : Retry.Config
  pub pool_size : ℕ
  pub metrics_interval : ℤ
  pub handler_timeout : ℤ
  pub logger : ℕ
  pub registerer : ℕ
  pub topics : Assoc ℕ
  pub reader : Option Reader
  pub pool : Option Workerpool.Pool
  pub started : Bool
  pub closed : Bool

pub data ConsumerOption : Type 0 where
  with_tls : Option ℕ → ConsumerOption
  with_sasl : String → String → ConsumerOption
  with_sasl_mechanism : SaslMechanism → ConsumerOption
  with_retry : Retry.Config → ConsumerOption
  with_worker_pool_size : ℕ → ConsumerOption
  with_metrics_interval : ℤ → ConsumerOption
  with_handler_timeout : ℤ → ConsumerOption
  with_app_name : String → ConsumerOption
  with_logger : ℕ → ConsumerOption
  with_prometheus_registerer : ℕ → ConsumerOption

unfoldable pub apply_option : Consumer → ConsumerOption → Consumer
apply_option c (with_tls t) = record c { tls_cfg = record (c.tls_cfg) { tls = t } }
apply_option c (with_sasl user pass) = record c {
  tls_cfg = record (c.tls_cfg) { sasl_user = user; sasl_pass = pass };
}
apply_option c (with_sasl_mechanism m) = record c { tls_cfg = record (c.tls_cfg) { sasl_mech = m } }
apply_option c (with_retry cfg) = record c { retry = cfg }
apply_option c (with_worker_pool_size n) = record c { pool_size = n }
apply_option c (with_metrics_interval d) = record c { metrics_interval = d }
apply_option c (with_handler_timeout d) = record c { handler_timeout = d }
apply_option c (with_app_name name) = record c { app_name = name }
apply_option c (with_logger l) = record c { logger = l }
apply_option c (with_prometheus_registerer r) = record c { registerer = r }

unfoldable pub new : List String → String → List ConsumerOption → Consumer
unfolding apply_option
new brokers group = foldl apply_option (record {
  brokers = brokers;
  consumer_group = group;
  app_name = "";
  tls_cfg = record { tls = none; sasl_user = ""; sasl_pass = ""; sasl_mech = unset };
  retry = Retry.default_config;
  pool_size = 8;
  metrics_interval = pos 15_000_000_000;
  handler_timeout = pos 0;
  logger = 0;
  registerer = 0;
  topics = [];
  reader = none;
  pool = none;
  started = false;
  closed = false;
})

-- `Handle`
unfoldable pub register : String → ℕ → Consumer → Consumer
register topic h c = record c { topics = insert topic h c.topics }

abbrev pub topic_list : Consumer → List String
topic_list c = map (λ entry. entry.0) c.topics

abbrev new_reader : Consumer → Dialer → Reader
new_reader c d = record {
  brokers = c.brokers;
  group = c.consumer_group;
  group_topics = topic_list c;
  dialer = d;
}

connected : Consumer → Dialer → Result {0} Unit → Option Err × Consumer
connected c d (err e) = (some (wrap "kafkaconsumer: connect: %w" [] e), c)
connected c d (ok u) = (
  none,
  record c {
    reader = some (new_reader c d);
    pool = some (Workerpool.new c.pool_size (Workerpool.with_logger c.logger ∷ []));
    started = true;
  },
)

dialed : StartWorld → Consumer → Result Dialer → Option Err × Consumer
unfolding connected
dialed w c (err e) = (some (wrap "kafkaconsumer: dialer: %w" [] e), c)
dialed w c (ok d) = connected c d (connect w c.retry c.brokers d)

-- `Start` up to the loop of `consume`, after which it returns nil.
unfoldable pub start : StartWorld → Consumer → Option Err × Consumer
unfolding dialed
start w c = elim (topic_list c) [
  | [] ↦ (some (errorf "kafkaconsumer: no topics registered, call Handle before Start" []), c)
  | topic ∷ rest ↦ dialed w c (new_dialer w.net c.tls_cfg)
]

-- What `Stop` tells: the reader's error before the pool's.
abbrev first_error : Option Err → Option Err → Option Err
first_error (some e) stopped = some e
first_error none stopped = wrap_some "kafkaconsumer: stop pool: %w" stopped

abbrev close_reader : Bool → Option Reader → Option Err → Option Err
close_reader true reader close = none
close_reader false none close = none
close_reader false (some r) close = wrap_some "kafkaconsumer: close reader: %w" close

abbrev stop_pool : Option Workerpool.Pool → Option Err → Option Err
stop_pool none stopped = none
stop_pool (some p) stopped = stopped

-- `close` is what `reader.Close` returns, `stopped` what `pool.Stop` does.
unfoldable pub stop : Option Err → Option Err → Consumer → Option Err × Consumer
stop close stopped c = (
  first_error (close_reader c.closed c.reader close) (stop_pool c.pool stopped),
  record c { closed = true },
)

unfoldable pub probe_consumer : Net → Consumer → Option Err
probe_consumer net c = elim c.started [
  | false ↦ some (errorf "kafkaconsumer: not started" [])
  | true ↦ elim (new_dialer net c.tls_cfg) [
    | err e ↦ some (wrap "kafkaconsumer: dialer: %w" [] e)
    | ok d ↦ probe net 0 c.brokers d
  ]
]
