-- ===== src/Wiring/StreamTests.antt =====
-- A confirmed event in the topic of events.
use gokit_services.Common.{true, none, some, [], ◌∷◌}
use gokit_services.Common.Errors.{Result, ok, err, foreign}
use gokit_services.Kafka.Producer.{Bytes, KafkaMessage, Producer, Writer}
use gokit_services.Kafka.Producer as Producing
use gokit_services.Kafka.Consumer.{Consumer, Fetched}
use gokit_services.Kafka.Consumer as Consuming
use gokit_services.Kafka.RoundTrip.{delivered}
use gokit_services.Orders.Publishing.{OrderEvent, confirmed_event}
use gokit_services.Wiring.EventStream.{orders_events_topic}

abbrev writer : Writer
writer = record {
  brokers = "localhost:9092" ∷ [];
  compression = 0;
  tls = none;
  mechanism = none;
  write_timeout = 0;
  max_attempts = 0;
}

abbrev sender : Producer
sender = record (Producing.new ("localhost:9092" ∷ []) []) { writer = some writer; started = true }

abbrev reader : Consumer
reader = Consuming.new ("localhost:9092" ∷ []) "orders-service" []

abbrev event : OrderEvent
event = confirmed_event 30 "i"

abbrev sent : KafkaMessage
sent = record {
  topic = orders_events_topic;
  key = some (105 ∷ []);
  value = some (123 ∷ []);
  headers = [];
}

-- A message of the topic that is no event.
abbrev garbage : Fetched
garbage = record (delivered sent 0 8 41) { value = none }

abbrev reads : Bytes → Result OrderEvent
reads none = err (foreign 4)
reads (some bytes) = ok event
