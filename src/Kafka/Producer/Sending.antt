-- ===== src/Kafka/Producer/Sending.antt =====
-- `Produce` and `ProduceBatch` of pkg/kafka/producer/producer.go.
use gokit_services.Common.{
  ℕ, ◌+◌, ◌++◌, String, str_eq, true, false, Option, none, some, List, [], ◌∷◌, map, length,
}
use gokit_services.Common.Errors.{Err, errorf, wrap, num, text, Result, ok, err}
use gokit_services.Kafka.Producer.{KafkaMessage, Message, Producer, to_kafka_message}

-- One message written, with what `WriteMessages` answers.
unfoldable pub written : Producer → String → Option Err → Option Err × Producer
written p topic (some e) = (
  some (wrap "kafkaproducer: produce to %s: %w" (text topic ∷ []) e),
  record p { durations = p.durations ++ topic ∷ []; failures = p.failures ++ topic ∷ [] },
)
written p topic none =
    (none, record p { durations = p.durations ++ topic ∷ []; totals = p.totals ++ topic ∷ [] })

unfoldable pub produce :
    (List KafkaMessage → Option Err) → Message → Producer → Option Err × Producer
unfolding written to_kafka_message
produce write m p = elim p.writer [
  | none ↦ (some (errorf "kafkaproducer: not started" []), p)
  | some writer ↦
      let ks = to_kafka_message m ∷ [] in
      written (record p { handed = p.handed ++ ks ∷ [] }) m.topic (write ks)
]

abbrev pub prepended : KafkaMessage → Result (List KafkaMessage) → Result (List KafkaMessage)
prepended k (ok ks) = ok (k ∷ ks)
prepended k (err e) = err e

-- The batch as kafka-go takes it, from the message at the index, or the error for the first message
-- with an empty topic.
unfoldable pub to_kafka_batch : ℕ → List Message → Result (List KafkaMessage)
unfolding to_kafka_message
to_kafka_batch i [] = ok []
to_kafka_batch i (m ∷ ms) =
    let rest = to_kafka_batch (i + 1) ms in
    elim (str_eq m.topic "") [
      | true ↦ err (errorf "kafkaproducer: message at index %d has empty topic" (num i ∷ []))
      | false ↦ prepended (to_kafka_message m) rest
    ]

abbrev pub topics : List Message → List String
topics ms = map (λ m. Message.topic m) ms

-- A batch written, with what `WriteMessages` answers.
unfoldable pub batch_written : Producer → List Message → Option Err → Option Err × Producer
batch_written p ms (some e) = (
  some (wrap "kafkaproducer: produce batch of %d: %w" (num (length ms) ∷ []) e),
  record p { durations = p.durations ++ topics ms; failures = p.failures ++ topics ms },
)
batch_written p ms none =
    (none, record p { durations = p.durations ++ topics ms; totals = p.totals ++ topics ms })

unfoldable pub produce_batch :
    (List KafkaMessage → Option Err) → List Message → Producer → Option Err × Producer
unfolding batch_written to_kafka_batch
produce_batch write [] p = (none, p)
produce_batch write (m ∷ ms) p = elim p.writer [
  | none ↦ (some (errorf "kafkaproducer: not started" []), p)
  | some writer ↦ elim (to_kafka_batch 0 (m ∷ ms)) [
    | err e ↦ (some e, p)
    | ok ks ↦ batch_written (record p { handed = p.handed ++ ks ∷ [] }) (m ∷ ms) (write ks)
  ]
]
