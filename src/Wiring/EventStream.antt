-- ===== src/Wiring/EventStream.antt =====
-- An event on its way: example/orders-service/store/publisher.go over
-- pkg/kafka/producer/producer.go, the broker, and the handler of
-- example/orders-service/serverkit/backends.go under pkg/kafka/consumer/consumer.go.
use gokit_services.Common.{ℕ, ◌++◌, String, Option, some, List, [], ◌∷◌}
use gokit_services.Common.Errors.{Err, Result}
use gokit_services.Kafka.Producer.{Bytes, KafkaMessage, Producer}
use gokit_services.Kafka.Producer.Sending.{produce}
use gokit_services.Kafka.Producer as Producing
use gokit_services.Kafka.Consumer.{Consumer, Fetched, Message}
use gokit_services.Orders.Publishing.{OrderEvent, event_type_text, kafka_publish}
use gokit_services.Orders.Api.{status_text}
use gokit_services.Wiring.{LogLine, log_order_event}

abbrev pub orders_events_topic : String
orders_events_topic = "orders.events"

-- What `Publish` gives to `Produce`; `to_bytes` is the conversion of a string to bytes.
unfoldable pub event_message : (String → List ℕ) → String → String → Bytes → Producing.Message
event_message to_bytes topic order_id payload = record {
  topic = topic;
  key = some (to_bytes order_id);
  value = payload;
  headers = [];
}

module _ (to_bytes : String → List ℕ) (marshal : OrderEvent → Result Bytes)
    (write : List KafkaMessage → Option Err) where
  -- `KafkaPublisher.Publish` over the producer.
  unfoldable pub publish : String → OrderEvent → Producer → Option Err × Producer
  unfolding event_message
  publish topic =
      kafka_publish marshal
        (λ order_id payload. produce write (event_message to_bytes topic order_id payload))

-- The handler that `NewBackends` registers, as the consumer calls it.
unfoldable pub event_handler : (Bytes → Result OrderEvent) → ℕ → Option ℕ → Message → Option Err
unfolding log_order_event
event_handler unmarshal h limit m = (log_order_event unmarshal m.value).0

-- The line of an event in the log, for the statements.
abbrev pub event_line : OrderEvent → LogLine
event_line ev = record {
  message = "orders-service event consumed";
  attributes =
      ("type", event_type_text ev.type)
      ∷ ("order_id", ev.order_id)
      ∷ ("status", status_text ev.status)
      ∷ [];
}

module _ (to_bytes : String → List ℕ) (marshal : OrderEvent → Result Bytes)
    (unmarshal : Bytes → Result OrderEvent) (write : List KafkaMessage → Option Err) where
  -- The producer after one message of the topic was written.
  abbrev wrote : String → KafkaMessage → Producer → Producer
  wrote topic k p = record p {
    handed = p.handed ++ (k ∷ []) ∷ [];
    durations = p.durations ++ topic ∷ [];
    totals = p.totals ++ topic ∷ [];
  }

  -- The message as the writer gets it, for the statements.
  abbrev pub keyed : ℕ → List ℕ → Bytes → KafkaMessage
  keyed b bs payload = record {
    topic = orders_events_topic;
    key = some (b ∷ bs);
    value = payload;
    headers = [];
  }

  -- What the consumer does for a committed message: it returns nil and logs these lines.
  abbrev pub logs : List Fetched → List LogLine
  logs [] = []
  logs (m ∷ ms) = (log_order_event unmarshal m.value).1 ++ logs ms
