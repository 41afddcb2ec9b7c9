-- ===== src/Kafka/Producer/Delivery.antt =====
-- What `Produce`, `ProduceBatch` and `Stop` of pkg/kafka/producer/producer.go do with the messages
-- and the counters.
use gokit_services.Common.{
  ℕ, ◌+◌, ◌++◌, ◌≡◌, refl, ◌∙◌, ap, String, str_eq, Bool-cases, ◌⊎◌, inl, inr, Option, none, some,
  Option-cases, List, [], ◌∷◌, map, if◌then◌else◌, arith,
}
use gokit_services.Common.Errors.{Err, errorf, num, Result, ok, err}
use gokit_services.Kafka.Producer.{Message, KafkaMessage, Producer, Writer, to_kafka_message, stop}
use gokit_services.Kafka.Producer.Sending.{
  to_kafka_batch, produce, produce_batch, topics, prepended, written, batch_written,
}

-- The index of the first message with an empty topic, for the statements.
abbrev pub first_empty : ℕ → List Message → Option ℕ
first_empty i [] = none
first_empty i (m ∷ ms) =
    let rest = first_empty (i + 1) ms in if str_eq m.topic "" then some i else rest

abbrev batch_of : List Message → Option ℕ → Result (List KafkaMessage)
batch_of ms none = ok (map to_kafka_message ms)
batch_of ms (some i) =
    err (errorf "kafkaproducer: message at index %d has empty topic" (num i ∷ []))

batch_of-cons :
    (m : Message) (ms : List Message) (o : Option ℕ)
    → prepended (to_kafka_message m) (batch_of ms o) ≡ batch_of (m ∷ ms) o
batch_of-cons m ms none = refl
batch_of-cons m ms (some i) = refl

to_kafka_batch_lem :
    (i : ℕ) (ms : List Message) → to_kafka_batch i ms ≡ batch_of ms (first_empty i ms)
unfolding to_kafka_batch
to_kafka_batch_lem i [] = refl
to_kafka_batch_lem i (m ∷ ms) = elim (Bool-cases (str_eq m.topic "")) [
  | inl t ↦ rw (t, to_kafka_batch)
  | inr f ↦
      rw (f, to_kafka_batch)
        (ap (prepended (to_kafka_message m)) (to_kafka_batch_lem (i + 1) ms)
          ∙ batch_of-cons m ms (first_empty (i + 1) ms))
]

-- `handed` once more.
abbrev handing : Producer → List KafkaMessage → Producer
handing p ks = record p { handed = p.handed ++ ks ∷ [] }

-- What holds after the messages of these topics were given to the writer in one call, whose answer is
-- the result: success counts each as produced, failure counts each as failed.
abbrev pub Counted :
    Producer → List String → List KafkaMessage → Option Err × Producer → Option Err → Type 0
Counted p ts ks r none =
    (r.0 ≡ none)
    × (r.1.handed ≡ p.handed ++ ks ∷ [])
    × (r.1.durations ≡ p.durations ++ ts)
    × (r.1.totals ≡ p.totals ++ ts)
    × (r.1.failures ≡ p.failures)
Counted p ts ks r (some e) =
    ((d : Err) × (r.0 ≡ some d))
    × (r.1.handed ≡ p.handed ++ ks ∷ [])
    × (r.1.durations ≡ p.durations ++ ts)
    × (r.1.totals ≡ p.totals)
    × (r.1.failures ≡ p.failures ++ ts)

written-Counted :
    (p : Producer) (topic : String) (ks : List KafkaMessage) (a : Option Err)
    → Counted p (topic ∷ []) ks (written (handing p ks) topic a) a
unfolding written
written-Counted p topic ks none = (refl, refl, refl, refl, refl)
written-Counted p topic ks (some e) = ((_, refl), refl, refl, refl, refl)

batch_written-Counted :
    (p : Producer) (ms : List Message) (ks : List KafkaMessage) (a : Option Err)
    → Counted p (topics ms) ks (batch_written (handing p ks) ms a) a
unfolding batch_written
batch_written-Counted p ms ks none = (refl, refl, refl, refl, refl)
batch_written-Counted p ms ks (some e) = ((_, refl), refl, refl, refl, refl)

produce_open :
    (write : List KafkaMessage → Option Err) (m : Message) (p : Producer) (w : Writer)
    → p.writer ≡ some w
    → produce write m p
      ≡ written (handing p (to_kafka_message m ∷ [])) m.topic (write (to_kafka_message m ∷ []))
unfolding produce
produce_open write m p w h = ground (arith, h)

produce_batch_open :
    (write : List KafkaMessage → Option Err) (m : Message) (ms : List Message) (p : Producer)
    (w : Writer)
    → p.writer ≡ some w
    → produce_batch write (m ∷ ms) p ≡ (elim (to_kafka_batch 0 (m ∷ ms)) [
      | err e ↦ (some e, p)
      | ok ks ↦ batch_written (handing p ks) (m ∷ ms) (write ks)
    ])
unfolding produce_batch
produce_batch_open write m ms p w h = ground (arith, h)

-- A producer with a writer gives the message to it once, reports an error exactly if the writer does,
-- and counts the message once as timed and once as either produced or failed.
produce_counts :
    (write : List KafkaMessage → Option Err) (m : Message) (p : Producer) (w : Writer)
    → p.writer ≡ some w
    → Counted p
        (m.topic ∷ [])
        (to_kafka_message m ∷ [])
        (produce write m p)
        (write (to_kafka_message m ∷ []))
produce_counts write m p w h =
    rw (produce_open write m p w h)
      (written-Counted p m.topic (to_kafka_message m ∷ []) (write (to_kafka_message m ∷ [])))

-- `ProduceBatch` of a batch that is not empty, on a producer with a writer, is all or nothing. If
-- some topic is empty it returns an error that names the first such index, calls the writer not once
-- and counts nothing; otherwise it calls the writer exactly once, with all messages in order, and each
-- is counted once, as produced or as failed.
pub produce_batch_counts :
    (write : List KafkaMessage → Option Err) (m : Message) (ms : List Message) (p : Producer)
    (w : Writer)
    → p.writer ≡ some w
    → ((first_empty 0 (m ∷ ms) ≡ none)
        × Counted p
            (topics (m ∷ ms))
            (map to_kafka_message (m ∷ ms))
            (produce_batch write (m ∷ ms) p)
            (write (map to_kafka_message (m ∷ ms))))
      ⊎ ((i : ℕ) × (first_empty 0 (m ∷ ms) ≡ some i)
          × (produce_batch write (m ∷ ms) p ≡ (
            some (errorf "kafkaproducer: message at index %d has empty topic" (num i ∷ [])),
            p,
          )))
produce_batch_counts write m ms p w h = elim (Option-cases (first_empty 0 (m ∷ ms))) [
  | inl e ↦
      let sent = to_kafka_batch_lem 0 (m ∷ ms) in
      inl (
        e,
        rw (produce_batch_open write m ms p w h, sent, e)
            (batch_written-Counted p (m ∷ ms) (map to_kafka_message (m ∷ ms))
              (write (map to_kafka_message (m ∷ ms)))),
      )
  | inr (i, e) ↦
      let sent = to_kafka_batch_lem 0 (m ∷ ms) in
      inr (i, e, rw (produce_batch_open write m ms p w h, sent, e))
]

-- `Stop` closes the writer at most once: whatever the first call returned, a second one returns nil and
-- changes nothing.
stop_twice : (c d : Option Err) (p : Producer) → stop d (stop c p).1 ≡ (none, (stop c p).1)
unfolding stop
stop_twice c d p = ground arith
