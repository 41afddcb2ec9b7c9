-- ===== src/Wiring/Journey.antt =====
-- One order through the program of example/orders-service: created over HTTP, confirmed by the
-- worker, read back, with the store that publishes events over the in-memory store.
use gokit_services.Common.{
  ℕ, ◌+◌, ◌%◌, ◌^◌, ◌≡◌, refl, ap, ap₂, ◌∙◌, ◌++◌, append_assoc, String, eq_refl, true, Option,
  none, some, List, [], ◌∷◌, arith,
}
use gokit_services.Common.Assoc.{lookup, insert, lookup-insert}
use gokit_services.Common.Errors.{Err, ok, wrapped}
use gokit_services.Orders.{Order, Store, pending, confirmed}
use gokit_services.Orders.Validation.{validate_new_order}
use gokit_services.Orders.Memory.{
  InMemoryStore, in_memory, create as memory_create, get as memory_get,
  confirm_pending as memory_confirm, is_pending, confirm_found,
}
use gokit_services.Orders.Publishing.{OrderEvent, event_created, confirmed_event, publishing_store}
use gokit_services.Orders.Publishing.Events.{
  recorder, owed_confirm, publishing_transparent, publishing_events,
}
use gokit_services.Orders.Jobs.{enqueue, ProcessWorld, order_confirmed, process}
use gokit_services.Orders.Api.{
  CreateRequest, order_body, to_response, queued, handle_create, handle_get,
}

-- The handlers and the worker over any store, by what the store returns.
module _ (submit : String → Option Err) {S : Type 0} (store : Store S) (format : ℕ → String) where
  handled_create :
      (now : ℕ) (req : CreateRequest) (s t : S) (o : Order)
      → validate_new_order req.customer_id req.items ≡ none
      → (store.create now req.customer_id req.items s).0 ≡ ok o
      → (store.create now req.customer_id req.items s).1 ≡ t
      → submit o.id ≡ none
      → handle_create submit store format now (some req) s ≡ record {
        reply = record { status = 201; body = order_body (to_response format o) };
        state = t;
        enqueued = o.id ∷ [];
      }
  unfolding handle_create queued enqueue
  handled_create now req s t o v e d q =
      let one : queued submit o.id ≡ o.id ∷ [] = rw (queued, q) refl in
      rw (v, handle_create) (rw (e, d, one) refl)

module _ {S : Type 0} (store : Store S) (format : ℕ → String) where
  handled_get :
      (now : ℕ) (id : String) (s : S) (o : Order)
      → (store.get now id s).0 ≡ ok o
      → (handle_get store format now id s).reply
        ≡ record { status = 200; body = order_body (to_response format o) }
  unfolding handle_get
  handled_get now id s o e = rw (e, handle_get) refl

  processed :
      (w : ProcessWorld) (id : String) (s t : S)
      → w.delay_done ≡ none
      → (store.confirm_pending w.now id s).0 ≡ ok true
      → (store.confirm_pending w.now id s).1 ≡ t
      → process store w id s ≡ (order_confirmed, t)
  unfolding process
  processed w id s t d e f = rw (d, process) (rw (e, f) refl)

module _ (format_id : ℕ → String) (format : ℕ → String) (fails : OrderEvent → Option Err) where
  abbrev pub journey_store : Store (InMemoryStore × List OrderEvent)
  journey_store = publishing_store (in_memory format_id) (recorder fails)

  abbrev pub new_id : InMemoryStore → String
  new_id s = format_id ((s.next_id + 1) % 2 ^ 64)

  -- The order that the request asks for.
  abbrev pub asked : ℕ → CreateRequest → InMemoryStore → Order
  asked now req s = record {
    id = new_id s;
    customer_id = req.customer_id;
    items = req.items;
    status = pending;
    created_at = now;
    updated_at = now;
  }

  abbrev pub created_event : ℕ → CreateRequest → InMemoryStore → OrderEvent
  created_event now req s = record {
    type = event_created;
    order_id = new_id s;
    customer_id = req.customer_id;
    status = pending;
    at = now;
  }

  abbrev with_order : Order → InMemoryStore → InMemoryStore
  with_order o s = record { orders = insert o.id o s.orders; next_id = (s.next_id + 1) % 2 ^ 64 }

  together :
      {A B C : Type 0} (r : A × (B × C)) (a : A) (b : B) (c : C)
      → r.0 ≡ a
      → r.1.0 ≡ b
      → r.1.1 ≡ c
      → r ≡ (a, (b, c))
  together r a b c x y z = ap₂ (λ u v. (u, v)) x (ap₂ (λ u v. (u, v)) y z)

  stored :
      (now : ℕ) (req : CreateRequest) (s : InMemoryStore) (seen : List OrderEvent)
      → journey_store.create now req.customer_id req.items (s, seen) ≡ (
        ok (asked now req s),
        (with_order (asked now req s) s, seen ++ created_event now req s ∷ []),
      )
  unfolding in_memory memory_create
  stored now req s seen =
      let p =
        publishing_transparent (in_memory format_id) (recorder fails) now 0 "" req.customer_id
          req.items s seen in
      let owed =
        publishing_events (in_memory format_id) fails now 0 "" req.customer_id req.items s seen in
      together (journey_store.create now req.customer_id req.items (s, seen)) _ _ _ p.0 p.1 owed.0

  -- The order once it is confirmed.
  abbrev pub settled : ℕ → Order → Order
  settled later o = record o { status = confirmed; updated_at = later }

  found_after : (o : Order) (s : InMemoryStore) → lookup o.id (insert o.id o s.orders) ≡ some o
  found_after o s = ground (arith, lookup-insert o.id o.id o s.orders, eq_refl o.id)

  confirmed_in :
      (later : ℕ) (o : Order) (s : InMemoryStore)
      → lookup o.id s.orders ≡ some o
      → is_pending o.status ≡ true
      → memory_confirm later o.id s
        ≡ (ok true, record s { orders = insert o.id (settled later o) s.orders })
  unfolding memory_confirm confirm_found
  confirmed_in later o s h p = rw (h, memory_confirm) (rw (p, confirm_found) refl)

  worked :
      (later : ℕ) (o : Order) (s : InMemoryStore) (seen : List OrderEvent)
      → lookup o.id s.orders ≡ some o
      → is_pending o.status ≡ true
      → journey_store.confirm_pending later o.id (s, seen) ≡ (
        ok true,
        (
          record s { orders = insert o.id (settled later o) s.orders },
          seen ++ confirmed_event later o.id ∷ [],
        ),
      )
  unfolding in_memory
  worked later o s seen h k =
      let e = confirmed_in later o s h k in
      let p =
        publishing_transparent (in_memory format_id) (recorder fails) later 0 o.id "" [] s seen in
      let owed = publishing_events (in_memory format_id) fails later 0 o.id "" [] s seen in
      together (journey_store.confirm_pending later o.id (s, seen)) _ _ _
        (p.2 ∙ ap (λ r. wrapped "publishing store: confirm: %w" r.0) e) (p.3 ∙ ap (λ r. r.1) e)
        (owed.1 ∙ ap (λ r. seen ++ owed_confirm later o.id r.0) e)

  found_again :
      (read_at : ℕ) (o : Order) (s : InMemoryStore) (seen : List OrderEvent)
      → lookup o.id s.orders ≡ some o
      → (journey_store.get read_at o.id (s, seen)).0 ≡ ok o
  unfolding publishing_store in_memory memory_get
  found_again read_at o s seen h = rw (h, memory_get) refl

  -- A valid order that is created over HTTP while the pool takes its task, processed by a worker whose
  -- delay is not cut short, and read over HTTP afterwards: the reply to the creation has status 201
  -- and shows the order as PENDING, created and updated at the time of the request, and it is
  -- enqueued; the worker confirms it; the reply to the read has status 200 and shows it as CONFIRMED,
  -- created at the time of the request and updated at the worker's; and the publisher was given one event for the creation and one for the
  -- confirmation, in this order, whether or not publishing failed.
  pub order_journey :
      (now : ℕ) (req : CreateRequest) (w : ProcessWorld) (read_at : ℕ) (s : InMemoryStore)
      (seen : List OrderEvent) (submit : String → Option Err)
      → validate_new_order req.customer_id req.items ≡ none
      → w.delay_done ≡ none
      → submit (new_id s) ≡ none
      → let h = handle_create submit journey_store format now (some req) (s, seen) in
        let (told, t) = process journey_store w (new_id s) h.state in
        (h.reply ≡ record {
          status = 201;
          body = order_body (record {
            id = new_id s;
            customer_id = req.customer_id;
            status = "PENDING";
            items = req.items;
            created_at = format now;
            updated_at = format now;
          });
        })
        × (h.enqueued ≡ new_id s ∷ [])
        × (told ≡ order_confirmed)
        × ((handle_get journey_store format read_at (new_id s) t).reply ≡ record {
          status = 200;
          body = order_body (record {
            id = new_id s;
            customer_id = req.customer_id;
            status = "CONFIRMED";
            items = req.items;
            created_at = format now;
            updated_at = format w.now;
          });
        })
        × (t.1 ≡ seen ++ created_event now req s ∷ confirmed_event w.now (new_id s) ∷ [])
  unfolding to_response
  order_journey now req w read_at s seen submit v d q =
      let o = asked now req s in
      let c = stored now req s seen in
      let h =
        handled_create submit journey_store format now req (s, seen) _ o v (ap (λ r. r.0) c)
          (ap (λ r. r.1) c) q in
      let s1 = with_order o s in
      let k = worked w.now o s1 (seen ++ created_event now req s ∷ []) (found_after o s) refl in
      let run =
        ap (λ r. process journey_store w (new_id s) r.state) h
        ∙ processed journey_store format w (new_id s) _ _ d (ap (λ r. r.0) k) (ap (λ r. r.1) k) in
      (
        ap (λ r. r.reply) h,
        ap (λ r. r.enqueued) h,
        ap (λ r. r.0) run,
        ap (λ r. (handle_get journey_store format read_at (new_id s) r.1).reply) run
            ∙ handled_get journey_store format read_at (new_id s) _ (settled w.now o)
                (found_again read_at (settled w.now o) _ _ (found_after (settled w.now o) s1)),
        ap (λ r. r.1.1) run
            ∙ append_assoc seen (created_event now req s ∷ [])
                (confirmed_event w.now (new_id s) ∷ []),
      )
