-- ===== src/Kafka/Tests.antt =====
-- A batch that the broker takes, a message with headers on its way, and a handler that fails for one
-- message and succeeds for the next.
use gokit_services.Common.{
  ℕ, ◌<◌, ◌≡◌, refl, ◌⊎◌, true, Option, some, none, List, [], ◌∷◌, map, arith, All, ◌==◌,
  if◌then◌else◌,
}
use gokit_services.Common.Assoc.{lookup}
use gokit_services.Common.Errors.{Err, foreign, errorf, num}
use gokit_services.Kafka.Producer.{Producer, Writer, KafkaMessage, to_kafka_message}
use gokit_services.Kafka.Producer.Sending.{produce_batch, topics}
use gokit_services.Kafka.Producer
use gokit_services.Kafka.Producer.Delivery.{Counted, first_empty, produce_batch_counts}
use gokit_services.Kafka.Consumer.{Fetched, Message, to_message, Consumer}
use gokit_services.Kafka.Consumer.Working.{Work, idle, fetched, consume_step, dispatch}
use gokit_services.Kafka.Consumer
use gokit_services.Kafka.Consumer.Intake.{
  Handling, round, task, Reach, here, step, MayCommit, commit_needs_success, position,
  failed_passed_over,
}
use gokit_services.Kafka.RoundTrip.{delivered, message_roundtrip}

abbrev writer : Writer
writer = record {
  brokers = "b:9092" ∷ [];
  compression = 0;
  tls = none;
  mechanism = none;
  write_timeout = 0;
  max_attempts = 0;
}

abbrev ready : Producer
ready = record (Producer.new ("b:9092" ∷ []) []) { writer = some writer; started = true }

abbrev hello : Producer.Message
hello = record {
  topic = "greetings";
  key = some (1 ∷ []);
  value = some (2 ∷ 3 ∷ []);
  headers = ("a", some (4 ∷ [])) ∷ ("b", none) ∷ [];
}

abbrev nowhere : Producer.Message
nowhere = record { topic = ""; key = none; value = none; headers = [] }

abbrev takes : List KafkaMessage → Option Err
takes ks = none

produce_batch_counts_example :
    ((first_empty 0 (hello ∷ nowhere ∷ []) ≡ none)
      × Counted ready
          (topics (hello ∷ nowhere ∷ []))
          (map to_kafka_message (hello ∷ nowhere ∷ []))
          (produce_batch takes (hello ∷ nowhere ∷ []) ready)
          (takes (map to_kafka_message (hello ∷ nowhere ∷ []))))
    ⊎ ((i : ℕ) × (first_empty 0 (hello ∷ nowhere ∷ []) ≡ some i)
        × (produce_batch takes (hello ∷ nowhere ∷ []) ready ≡ (
          some (errorf "kafkaproducer: message at index %d has empty topic" (num i ∷ [])),
          ready,
        )))
produce_batch_counts_example = produce_batch_counts takes hello (nowhere ∷ []) ready writer refl

message_roundtrip_example :
    let got = to_message (delivered (to_kafka_message hello) 0 5 99) in
    (got.topic ≡ "greetings")
    × (got.value ≡ some (2 ∷ 3 ∷ []))
    × (lookup "b" got.headers ≡ some none)
unfolding lookup
message_roundtrip_example = message_roundtrip hello 0 5 99 "b" (refl, (refl, tt))

abbrev at : ℕ → Fetched
at n = record {
  topic = "greetings";
  partition = 0;
  offset = n;
  key = none;
  value = none;
  headers = [];
  time = 0;
}

abbrev listening : Consumer
listening = record (Consumer.new ("b:9092" ∷ []) "group" []) { topics = ("greetings", 1) ∷ [] }

-- It fails for the message at offset 7.
abbrev picky : Handling
picky h limit m = if m.offset == 7 then some (foreign 7) else none

abbrev after_commit : Work
after_commit =
    dispatch picky listening 1 (at 8) none
      (record (consume_step listening.topics (fetched (at 8)) none none idle) { tasks = [] })

commits : Reach picky listening idle after_commit
unfolding idle consume_step lookup
commits =
    step (round idle (fetched (at 8)) none none refl)
      (step (task _ [] [] 1 (at 8) none refl) (here after_commit))

commit_needs_success_example : All (MayCommit picky listening) after_commit.committed
commit_needs_success_example = commit_needs_success picky listening after_commit commits

failed_passed_over_example :
    (s : Work) × Reach picky listening idle s
    × (s.tasks ≡ [])
    × (s.failed ≡ at 7 ∷ [])
    × (s.committed ≡ at 8 ∷ [])
    × (7 < position "greetings" 0 s.committed)
unfolding lookup to_message
failed_passed_over_example =
    failed_passed_over picky listening 1 (at 7) (at 8) (foreign 7) refl refl refl (omega arith) refl
      refl
