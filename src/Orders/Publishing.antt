-- ===== src/Orders/Publishing.antt =====
-- example/orders-service/events.go and store/publisher.go: a decorator that emits an event after each
-- successful mutation. The inner store and the publisher are interfaces; `S` and `P` are their states.
pub mod Events
use gokit_services.Common.{
  ℕ, String, Bool, true, false, Option, none, some, List, [], ◌∷◌, if◌then◌else◌,
}
use gokit_services.Common.Errors.{Err, Result, ok, err, wrap, text}
use gokit_services.Orders.{Order, Item, Status, pending, confirmed, canceled, other, Store}

pub data EventType : Type 0 where
  event_created event_confirmed event_canceled : EventType

-- The constants of the events' types.
abbrev pub event_type_text : EventType → String
event_type_text event_created = "created"
event_type_text event_confirmed = "confirmed"
event_type_text event_canceled = "canceled"

pub record OrderEvent : Type 0 where
  pub type : EventType
  pub order_id : String
  pub customer_id : String
  pub status : Status
  pub at : ℕ

-- `EventPublisher`
pub record EventPublisher (P : Type 0) : Type 0 where
  pub publish : OrderEvent → P → Option Err × P

abbrev pub event_name : EventType → String
event_name event_created = "created"
event_name event_confirmed = "confirmed"
event_name event_canceled = "canceled"

-- `KafkaPublisher.Publish`: `marshal` is `json.Marshal` and `produce` the producer's `Produce` to the
-- publisher's topic, by key and value; there are no headers.
unfoldable pub kafka_publish :
    {P Bytes : Type 0}
    → (OrderEvent → Result Bytes)
    → (String → Bytes → P → Option Err × P)
    → OrderEvent
    → P
    → Option Err × P
kafka_publish marshal produce ev p = elim (marshal ev) [
  | err e ↦ (some (wrap "kafka publish %s: marshal: %w" (text (event_name ev.type) ∷ []) e), p)
  | ok payload ↦
      let (failed, p') = produce ev.order_id payload p in
      elim failed [
        | some e ↦ (some (wrap "kafka publish %s: %w" (text (event_name ev.type) ∷ []) e), p')
        | none ↦ (none, p')
      ]
]

unfoldable pub kafka_publisher :
    {P Bytes : Type 0}
    → (OrderEvent → Result Bytes)
    → (String → Bytes → P → Option Err × P)
    → EventPublisher P
unfolding kafka_publish
kafka_publisher marshal produce = record { publish = kafka_publish marshal produce }

abbrev pub confirmed_event : ℕ → String → OrderEvent
confirmed_event now id = record {
  type = event_confirmed;
  order_id = id;
  customer_id = "";
  status = confirmed;
  at = now;
}

module _ {S P : Type 0} (inner : Store S) (publisher : EventPublisher P) where
  -- A failed publish is logged and forgotten.
  emit : OrderEvent → P → P
  emit ev p = (publisher.publish ev p).1

  emit_all : ℕ → List String → P → P
  unfolding emit
  emit_all now [] p = p
  emit_all now (id ∷ ids) p = emit_all now ids (
      emit
        (record {
          type = event_canceled;
          order_id = id;
          customer_id = "";
          status = canceled;
          at = now;
        })
        p)

  create : ℕ → String → List Item → S × P → Result Order × (S × P)
  unfolding emit
  create now customer_id items (s, p) =
      let (r, s') = inner.create now customer_id items s in
      elim r [
        | err e ↦ (err (wrap "publishing store: create: %w" [] e), (s', p))
        | ok o ↦ (
          ok o,
          (
            s',
            emit
                (record {
                  type = event_created;
                  order_id = o.id;
                  customer_id = o.customer_id;
                  status = o.status;
                  at = now;
                })
                p,
          ),
        )
      ]

  confirm_pending : ℕ → String → S × P → Result Bool × (S × P)
  unfolding emit
  confirm_pending now id (s, p) =
      let (r, s') = inner.confirm_pending now id s in
      elim r [
        | err e ↦ (err (wrap "publishing store: confirm: %w" [] e), (s', p))
        | ok b ↦ (ok b, (s', if b then emit (confirmed_event now id) p else p))
      ]

  cancel_stale_pending : ℕ → ℕ → S × P → Result (List String) × (S × P)
  unfolding emit_all
  cancel_stale_pending now cutoff (s, p) =
      let (r, s') = inner.cancel_stale_pending now cutoff s in
      elim r [
        | err e ↦ (err (wrap "publishing store: cancel stale: %w" [] e), (s', p))
        | ok ids ↦ (ok ids, (s', emit_all now ids p))
      ]

  -- `Get` and `List` are those of the embedded store.
  unfoldable pub publishing_store : Store (S × P)
  unfolding create confirm_pending cancel_stale_pending
  publishing_store = record {
    create = create;
    get = λ now id (s, p). let (r, s') = inner.get now id s in (r, (s', p));
    list = λ now (s, p). let (r, s') = inner.list now s in (r, (s', p));
    confirm_pending = confirm_pending;
    cancel_stale_pending = cancel_stale_pending;
  }
