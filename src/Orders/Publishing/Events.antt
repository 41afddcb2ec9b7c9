-- ===== src/Orders/Publishing/Events.antt =====
-- The publishing store against the store inside it: the same results and state, and which events.
use gokit_services.Common.{
  ℕ, ◌≡◌, refl, sym, ◌∙◌, String, Bool, true, false, Option, List, [], ◌∷◌, ◌++◌, append-nil,
  append_assoc, arith, inl, inr,
}
use gokit_services.Common.Errors.{Err, Result, ok, err, wrapped, Result-cases}
use gokit_services.Orders.{Order, Item, canceled, Store}
use gokit_services.Orders.Publishing.{
  EventPublisher, OrderEvent, event_created, event_canceled, confirmed_event, emit_all, create,
  confirm_pending, cancel_stale_pending, publishing_store,
}

module _ {S P : Type 0} (inner : Store S) (publisher : EventPublisher P) where
  open publishing_store inner publisher use {
    create as p_create, confirm_pending as p_confirm, cancel_stale_pending as p_cancel,
    get as p_get,
  }

  -- Whatever the publisher does, failing or not, the decorated store returns what the store inside
  -- returns (its errors wrapped) and leaves it in the same state.
  pub publishing_transparent :
      (now cutoff : ℕ) (id customer : String) (items : List Item) (s : S) (p : P)
      → ((p_create now customer items (s, p)).0
          ≡ wrapped "publishing store: create: %w" (inner.create now customer items s).0)
        × ((p_create now customer items (s, p)).1.0 ≡ (inner.create now customer items s).1)
        × ((p_confirm now id (s, p)).0
            ≡ wrapped "publishing store: confirm: %w" (inner.confirm_pending now id s).0)
        × ((p_confirm now id (s, p)).1.0 ≡ (inner.confirm_pending now id s).1)
        × ((p_cancel now cutoff (s, p)).0
            ≡ wrapped "publishing store: cancel stale: %w"
                (inner.cancel_stale_pending now cutoff s).0)
        × ((p_cancel now cutoff (s, p)).1.0 ≡ (inner.cancel_stale_pending now cutoff s).1)
  unfolding publishing_store
  publishing_transparent now cutoff id customer items s p = ground arith

-- A publisher that keeps the events it is given, and that may fail on any of them.
abbrev pub recorder : (OrderEvent → Option Err) → EventPublisher (List OrderEvent)
recorder fails = record { publish = λ ev seen. (fails ev, seen ++ ev ∷ []) }

abbrev canceled_event : ℕ → String → OrderEvent
canceled_event now id = record {
  type = event_canceled;
  order_id = id;
  customer_id = "";
  status = canceled;
  at = now;
}

-- The events that each mutation owes, by the result of the store inside.
abbrev pub owed_create : ℕ → Result Order → List OrderEvent
owed_create now (ok o) =
    record {
      type = event_created;
      order_id = o.id;
      customer_id = o.customer_id;
      status = o.status;
      at = now;
    }
    ∷ []
owed_create now (err e) = []

abbrev pub owed_confirm : ℕ → String → Result Bool → List OrderEvent
owed_confirm now id (ok true) = confirmed_event now id ∷ []
owed_confirm now id (ok false) = []
owed_confirm now id (err e) = []

abbrev pub owed_cancels : ℕ → List String → List OrderEvent
owed_cancels now [] = []
owed_cancels now (id ∷ ids) = canceled_event now id ∷ owed_cancels now ids

abbrev pub owed_cancel : ℕ → Result (List String) → List OrderEvent
owed_cancel now (ok ids) = owed_cancels now ids
owed_cancel now (err e) = []

module _ {S : Type 0} (inner : Store S) (fails : OrderEvent → Option Err) where
  open publishing_store inner (recorder fails) use {
    create as r_create, confirm_pending as r_confirm, cancel_stale_pending as r_cancel,
  }

  emit_all_lem :
      (now : ℕ) (ids : List String) (seen : List OrderEvent)
      → emit_all inner (recorder fails) now ids seen ≡ seen ++ owed_cancels now ids
  unfolding emit_all
  emit_all_lem now [] seen = sym (append-nil seen)
  emit_all_lem now (id ∷ ids) seen =
      emit_all_lem now ids (seen ++ canceled_event now id ∷ [])
      ∙ append_assoc seen (canceled_event now id ∷ []) (owed_cancels now ids)

  created_events :
      (now : ℕ) (customer : String) (items : List Item) (s : S) (seen : List OrderEvent)
      → (create inner (recorder fails) now customer items (s, seen)).1.1
        ≡ seen ++ owed_create now (inner.create now customer items s).0
  unfolding create
  created_events now customer items s seen =
      elim (Result-cases (inner.create now customer items s).0) [
        | inl (o, e) ↦ rw (e, create) refl
        | inr (x, e) ↦ rw (e, create) (sym (append-nil seen))
      ]

  confirmed_events :
      (now : ℕ) (id : String) (s : S) (seen : List OrderEvent)
      → (confirm_pending inner (recorder fails) now id (s, seen)).1.1
        ≡ seen ++ owed_confirm now id (inner.confirm_pending now id s).0
  unfolding confirm_pending
  confirmed_events now id s seen = elim (Result-cases (inner.confirm_pending now id s).0) [
    | inl (true, e) ↦ rw (e, confirm_pending) refl
    | inl (false, e) ↦ rw (e, confirm_pending) (sym (append-nil seen))
    | inr (x, e) ↦ rw (e, confirm_pending) (sym (append-nil seen))
  ]

  canceled_events :
      (now cutoff : ℕ) (s : S) (seen : List OrderEvent)
      → (cancel_stale_pending inner (recorder fails) now cutoff (s, seen)).1.1
        ≡ seen ++ owed_cancel now (inner.cancel_stale_pending now cutoff s).0
  unfolding cancel_stale_pending
  canceled_events now cutoff s seen =
      elim (Result-cases (inner.cancel_stale_pending now cutoff s).0) [
        | inl (ids, e) ↦ rw (e, cancel_stale_pending) (emit_all_lem now ids seen)
        | inr (x, e) ↦ rw (e, cancel_stale_pending) (sym (append-nil seen))
      ]

  -- After a mutation the publisher has been given exactly the events that its result owes, in order,
  -- also where some of them failed: one for a created order, one for a confirmation that happened and
  -- none for one that did not, one for each canceled id, and none for an error.
  pub publishing_events :
      (now cutoff : ℕ) (id customer : String) (items : List Item) (s : S) (seen : List OrderEvent)
      → ((r_create now customer items (s, seen)).1.1
          ≡ seen ++ owed_create now (inner.create now customer items s).0)
        × ((r_confirm now id (s, seen)).1.1
            ≡ seen ++ owed_confirm now id (inner.confirm_pending now id s).0)
        × ((r_cancel now cutoff (s, seen)).1.1
            ≡ seen ++ owed_cancel now (inner.cancel_stale_pending now cutoff s).0)
  unfolding publishing_store
  publishing_events now cutoff id customer items s seen = (
    created_events now customer items s seen,
    confirmed_events now id s seen,
    canceled_events now cutoff s seen,
  )
