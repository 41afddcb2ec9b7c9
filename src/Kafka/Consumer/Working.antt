-- ===== src/Kafka/Consumer/Working.antt =====
-- What pkg/kafka/consumer/consumer.go does between `Start` and its end: the rounds of `consume` and
-- the tasks, which interleave in any order. `handle` says what a handler returns for a message
-- within a time limit, if there is one.
use gokit_services.Common.{
  ℕ, ◌++◌, String, Bool, true, false, Option, none, some, List, [], ◌∷◌, ◌||◌, if◌then◌else◌,
}
use gokit_services.Common.Errors.{Err, errors_is, is_ctx_canceled, is_closed_pipe}
use gokit_services.Common.Int.{is_positive, to_ℕ}
use gokit_services.Common.Assoc.{Assoc, lookup}
use gokit_services.Kafka.Consumer.{Consumer, Fetched, Message, to_message}

-- The work between `Start` and its end. `tasks` were submitted and have not run yet; `committed` and
-- `failed` record the messages whose commit succeeded and whose handler failed; `durations`,
-- `errors` and `consumed` hold the topics that the histogram and the counters were told.
pub record Work : Type 0 where
  pub live : Bool
  pub tasks : List (ℕ × Fetched)
  pub committed : List Fetched
  pub failed : List Fetched
  pub durations : List String
  pub errors : List String
  pub consumed : List String

unfoldable pub idle : Work
idle = record {
  live = true;
  tasks = [];
  committed = [];
  failed = [];
  durations = [];
  errors = [];
  consumed = [];
}

-- What `FetchMessage` answers; `waited` says how the wait after an error ends: true if the context
-- is done first.
pub data Fetch : Type 0 where
  fetched : Fetched → Fetch
  fetch_failed : Err → Bool → Fetch

unfoldable pub committed_unhandled : Fetched → Option Err → Work → Work
committed_unhandled m none s = record s { committed = s.committed ++ m ∷ [] }
committed_unhandled m (some e) s = s

unfoldable pub submitted : ℕ → Fetched → Option Err → Work → Work
submitted h m none s = record s { tasks = s.tasks ++ (h, m) ∷ [] }
submitted h m (some e) s = record s { live = false }

unfoldable pub routed : Option ℕ → Fetched → Option Err → Option Err → Work → Work
unfolding committed_unhandled submitted
routed none m commit submit s = committed_unhandled m commit s
routed (some h) m commit submit s = submitted h m submit s

abbrev handler_for : Assoc ℕ → String → Option ℕ
handler_for topics topic = lookup topic topics

-- One round of the loop of `consume`, with what `CommitMessages` and `Submit` return.
unfoldable pub consume_step : Assoc ℕ → Fetch → Option Err → Option Err → Work → Work
unfolding routed
consume_step topics (fetched m) commit submit s =
    routed (handler_for topics m.topic) m commit submit s
consume_step topics (fetch_failed e waited) commit submit s =
    if errors_is is_ctx_canceled e || (errors_is is_closed_pipe e || waited)
    then record s { live = false }
    else s

abbrev pub time_limit : Consumer → Option ℕ
time_limit c = if is_positive c.handler_timeout then some (to_ℕ c.handler_timeout) else none

abbrev observed : Fetched → Work → Work
observed m s = record s { durations = s.durations ++ m.topic ∷ [] }

unfoldable pub dispatched : Fetched → Option Err → Option Err → Work → Work
dispatched m (some e) commit s = record s {
  errors = s.errors ++ m.topic ∷ [];
  failed = s.failed ++ m ∷ [];
}
dispatched m none (some e) s = s
dispatched m none none s = record s {
  committed = s.committed ++ m ∷ [];
  consumed = s.consumed ++ m.topic ∷ [];
}

-- `dispatch`, with what `CommitMessages` returns.
unfoldable pub dispatch :
    (ℕ → Option ℕ → Message → Option Err) → Consumer → ℕ → Fetched → Option Err → Work → Work
unfolding dispatched
dispatch handle c h m commit s =
    dispatched m (handle h (time_limit c) (to_message m)) commit (observed m s)
