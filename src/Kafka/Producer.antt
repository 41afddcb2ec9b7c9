-- ===== src/Kafka/Producer.antt =====
-- pkg/kafka/producer/producer.go: a producer over one kafka-go writer, with its counters.
pub mod Sending
pub mod Delivery
use mathlib.Core.List.{foldl}
use gokit_services.Common.{
  ℕ, ◌+◌, ◌++◌, String, str_eq, Bool, true, false, Option, none, some, List, [], ◌∷◌, map, length,
  if◌then◌else◌,
}
use gokit_services.Common.Errors.{Err, errorf, wrap, num, text, Result, ok, err, wrap_some}
use gokit_services.Common.Int.{ℤ, pos, is_positive, to_ℕ}
use gokit_services.Common.Assoc.{Assoc}
use gokit_services.Retry
use gokit_services.Kafka.{
  TlsSaslConfig, SaslMechanism, unset, Net, Dialer, Mechanism, new_dialer, probe,
}

pub data Compression : Type 0 where
  compression_none compression_gzip compression_snappy compression_lz4 compression_zstd :
      Compression
  compression_other : String → Compression

-- A byte slice; `none` is nil.
abbrev pub Bytes : Type 0
Bytes = Option (List ℕ)

pub record Message : Type 0 where
  pub topic : String
  pub key : Bytes
  pub value : Bytes
  pub headers : Assoc Bytes

-- `kafka.Message`: the headers are a list.
pub record KafkaMessage : Type 0 where
  pub topic : String
  pub key : Bytes
  pub value : Bytes
  pub headers : List (String × Bytes)

-- The settings of a writer.
pub record Writer : Type 0 where
  pub brokers : List String
  pub compression : ℕ
  pub tls : Option ℕ
  pub mechanism : Option Mechanism
  pub write_timeout : ℕ
  pub max_attempts : ℕ

-- `durations`, `failures` and `totals` hold the topics for which the histogram and the two counters
-- were told of a message, in order; `handed` holds the batch of each call of `WriteMessages`, in order.
pub record Producer : Type 0 where
  pub brokers : List String
  pub app_name : String
  pub tls_cfg : TlsSaslConfig
  pub retry : Retry.Config
  pub compression : Compression
  pub write_timeout : ℤ
  pub max_attempts : ℤ
  pub logger : ℕ
  pub registerer : ℕ
  pub writer : Option Writer
  pub started : Bool
  pub closed : Bool
  pub durations : List String
  pub failures : List String
  pub totals : List String
  pub handed : List (List KafkaMessage)

pub data ProducerOption : Type 0 where
  with_tls : Option ℕ → ProducerOption
  with_sasl : String → String → ProducerOption
  with_sasl_mechanism : SaslMechanism → ProducerOption
  with_retry : Retry.Config → ProducerOption
  with_compression : Compression → ProducerOption
  with_write_timeout : ℤ → ProducerOption
  with_max_attempts : ℤ → ProducerOption
  with_app_name : String → ProducerOption
  with_logger : ℕ → ProducerOption
  with_prometheus_registerer : ℕ → ProducerOption

unfoldable pub apply_option : Producer → ProducerOption → Producer
apply_option p (with_tls t) = record p { tls_cfg = record (p.tls_cfg) { tls = t } }
apply_option p (with_sasl user pass) = record p {
  tls_cfg = record (p.tls_cfg) { sasl_user = user; sasl_pass = pass };
}
apply_option p (with_sasl_mechanism m) = record p { tls_cfg = record (p.tls_cfg) { sasl_mech = m } }
apply_option p (with_retry cfg) = record p { retry = cfg }
apply_option p (with_compression c) = record p { compression = c }
apply_option p (with_write_timeout d) = record p { write_timeout = d }
apply_option p (with_max_attempts n) = record p { max_attempts = n }
apply_option p (with_app_name name) = record p { app_name = name }
apply_option p (with_logger l) = record p { logger = l }
apply_option p (with_prometheus_registerer r) = record p { registerer = r }

unfoldable pub new : List String → List ProducerOption → Producer
unfolding apply_option
new brokers = foldl apply_option (record {
  brokers = brokers;
  app_name = "";
  tls_cfg = record { tls = none; sasl_user = ""; sasl_pass = ""; sasl_mech = unset };
  retry = Retry.default_config;
  compression = compression_none;
  write_timeout = pos 0;
  max_attempts = pos 0;
  logger = 0;
  registerer = 0;
  writer = none;
  started = false;
  closed = false;
  durations = [];
  failures = [];
  totals = [];
  handed = [];
})

-- The codes of kafka-go: 1 for gzip, 2 for snappy, 3 for lz4, 4 for zstd.
unfoldable pub kafka_compression : Compression → ℕ
kafka_compression compression_gzip = 1
kafka_compression compression_snappy = 2
kafka_compression compression_lz4 = 3
kafka_compression compression_zstd = 4
kafka_compression compression_none = 0
kafka_compression (compression_other c) = 0

unfoldable pub to_kafka_key : Bytes → Bytes
to_kafka_key none = none
to_kafka_key (some []) = none
to_kafka_key (some (b ∷ bs)) = some (b ∷ bs)

unfoldable pub to_kafka_headers : Assoc Bytes → List (String × Bytes)
to_kafka_headers [] = []
to_kafka_headers ((k, v) ∷ headers) = (k, v) ∷ to_kafka_headers headers

unfoldable pub to_kafka_message : Message → KafkaMessage
unfolding to_kafka_key to_kafka_headers
to_kafka_message m = record {
  topic = m.topic;
  key = to_kafka_key m.key;
  value = m.value;
  headers = to_kafka_headers m.headers;
}

-- `done` is how a wait of the connection loop ends, `scale` the float64 product of it.
pub record StartWorld : Type 0 where
  pub net : Net
  pub done : ℕ → Option Err
  pub scale : ℕ → ℕ

-- The loop that dials the first broker.
abbrev pub connect : StartWorld → Retry.Config → List String → Dialer → Result {0} Unit
connect w cfg brokers d =
    (Retry.do_retry {0}
      (record {
        connect = λ attempt. elim (probe w.net attempt brokers d) [ some e ↦ err e | none ↦ ok tt ];
        done = w.done;
        scale = w.scale;
      })
      cfg).outcome

abbrev new_writer : Producer → Dialer → Writer
new_writer p d = record {
  brokers = p.brokers;
  compression = kafka_compression p.compression;
  tls = d.tls;
  mechanism = d.mechanism;
  write_timeout = if is_positive p.write_timeout then to_ℕ p.write_timeout else 0;
  max_attempts = if is_positive p.max_attempts then to_ℕ p.max_attempts else 0;
}

connected : Producer → Dialer → Result {0} Unit → Option Err × Producer
connected p d (err e) = (some (wrap "kafkaproducer: connect: %w" [] e), p)
connected p d (ok u) = (none, record p { writer = some (new_writer p d); started = true })

dialed : StartWorld → Producer → Result Dialer → Option Err × Producer
unfolding connected
dialed w p (err e) = (some (wrap "kafkaproducer: dialer: %w" [] e), p)
dialed w p (ok d) = connected p d (connect w p.retry p.brokers d)

-- `Start` up to its wait for the context, after which it returns nil.
unfoldable pub start : StartWorld → Producer → Option Err × Producer
unfolding dialed
start w p = dialed w p (new_dialer w.net p.tls_cfg)

-- `close` is what `writer.Close` returns.
unfoldable pub stop : Option Err → Producer → Option Err × Producer
stop close p = elim p.closed [
  | true ↦ (none, p)
  | false ↦ elim p.writer [
    | none ↦ (none, record p { closed = true })
    | some writer ↦ (wrap_some "kafkaproducer: close writer: %w" close, record p { closed = true })
  ]
]

unfoldable pub probe_producer : Net → Producer → Option Err
probe_producer net p = elim p.started [
  | false ↦ some (errorf "kafkaproducer: not started" [])
  | true ↦ elim (new_dialer net p.tls_cfg) [
    | err e ↦ some (wrap "kafkaproducer: dialer: %w" [] e)
    | ok d ↦ probe net 0 p.brokers d
  ]
]
