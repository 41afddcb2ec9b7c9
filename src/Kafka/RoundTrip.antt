-- ===== src/Kafka/RoundTrip.antt =====
-- A message on its way from pkg/kafka/producer/producer.go to pkg/kafka/consumer/consumer.go.
use gokit_services.Common.{ℕ, ◌≡◌, refl, ◌∙◌, String, eq_iff, Option, none, some, [], ◌∷◌, arith}
use gokit_services.Common.Assoc.{Assoc, lookup, insert, lookup-insert}
use gokit_services.Kafka.Producer.{Bytes, to_kafka_headers, to_kafka_message}
use gokit_services.Kafka.Producer
use gokit_services.Kafka.Consumer.{Fetched, header_map, to_message}

-- What the reader fetches where the broker stored the message: the fields as they were written.
abbrev pub delivered : Producer.KafkaMessage → ℕ → ℕ → ℕ → Fetched
delivered k partition offset time = record {
  topic = k.topic;
  partition = partition;
  offset = offset;
  key = k.key;
  value = k.value;
  headers = k.headers;
  time = time;
}

abbrev first_of : Option Bytes → Option Bytes → Option Bytes
first_of none later = later
first_of (some v) later = some v

-- No key stands twice, as in every Go map.
abbrev pub HasOnceEach : Assoc Bytes → Type 0
HasOnceEach [] = Unit
HasOnceEach ((k, v) ∷ m) = (lookup k m ≡ none) × HasOnceEach m

lookup-header_map :
    (j : String) (hs seen : Assoc Bytes)
    → HasOnceEach hs
    → lookup j (header_map seen (to_kafka_headers hs)) ≡ first_of (lookup j hs) (lookup j seen)
unfolding lookup header_map to_kafka_headers
lookup-header_map j [] seen d = refl
lookup-header_map j ((k, v) ∷ hs) seen (a, d) =
    ground
      (arith, eq_iff k j, lookup-insert k j v seen, lookup-header_map j hs (insert k v seen) d, a)

first_of-none : (o : Option Bytes) → first_of o none ≡ o
first_of-none none = refl
first_of-none (some v) = refl

lookup-headers :
    (j : String) (hs : Assoc Bytes)
    → HasOnceEach hs
    → lookup j (header_map [] (to_kafka_headers hs)) ≡ lookup j hs
unfolding lookup
lookup-headers j hs d = lookup-header_map j hs [] d ∙ first_of-none (lookup j hs)

-- A message with headers that the producer writes and the broker delivers reaches the handler with
-- the topic and value it was given, and with the same value, or none, under every header key.
pub message_roundtrip :
    (m : Producer.Message) (partition offset time : ℕ) (j : String)
    → HasOnceEach m.headers
    → let got = to_message (delivered (to_kafka_message m) partition offset time) in
      (got.topic ≡ m.topic) × (got.value ≡ m.value) × (lookup j got.headers ≡ lookup j m.headers)
unfolding to_message to_kafka_message
message_roundtrip m partition offset time j d = (refl, refl, lookup-headers j m.headers d)
