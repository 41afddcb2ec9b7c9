-- ===== src/Wiring/Tests.antt =====
-- The theorems on Wiring at concrete stores and runs.
use gokit_services.Common.{
  ◌++◌, ℕ, ◌≡◌, refl, ◌↔◌, String, str_eq, Bool, true, false, Option, none, some, List, [], ◌∷◌,
  All, length, ◌==◌, if◌then◌else◌,
}
use gokit_services.Common.Errors.{Err, wrap, foreign, ctx_deadline, ok, err, wrapped}
use gokit_services.Orders.Memory.{in_memory, confirm_pending, cancel_stale_pending, stale_ids}
use gokit_services.Orders.Publishing.{OrderEvent, publishing_store}
use gokit_services.Orders.Publishing.Events.{recorder, owed_confirm, owed_cancels}
use gokit_services.Orders.Caching.{caching_store}
use gokit_services.Orders.Caching.Coherence.{IsCoherent}
use gokit_services.Orders.Postgres.{Sql}
use gokit_services.Orders.Jobs.{CleanupJob, probe}
use gokit_services.Orders.Validation.{validate_new_order, check_items}
use gokit_services.Orders.Publishing.{confirmed_event}
use gokit_services.Orders.Jobs.{ProcessWorld, order_confirmed, process}
use gokit_services.Orders.Api.{CreateRequest, order_body, handle_create, handle_get}
use gokit_services.Entrypoint.{
  World, Service, shut_down, launch_all, run, hooked, post_start, caller, services_canceled,
}
use gokit_services.Wiring.Program.{Parts, services, entrypoint}
use gokit_services.Wiring.Unprepared.{preparing, program_unprepared}
use gokit_services.Wiring.Journey.{journey_store, created_event, order_journey}
use gokit_services.Orders.Shop.{tally, pen, shop, shop-Inv}
use gokit_services.Orders.Slot.{slot, slot-IsLawful, warm, warm-IsCoherent}
use gokit_services.Http.Server.{Request, serve, final_status}
use gokit_services.Health as Health
use gokit_services.Health.{Probing, probe_all, Reach, here, next, answers, handle_readyz}
use gokit_services.Wiring.{PrepareWorld}
use gokit_services.Wiring.Stack.{stack_confirms, stack_cancels}
use gokit_services.Wiring.Program.{health_options, program_ready}

-- The broker refuses the events of order "ii".
abbrev refuses : OrderEvent → Option Err
refuses ev = if str_eq ev.order_id "ii" then some (foreign 1) else none

stack_confirms_example :
    let inner = caching_store (in_memory tally) slot 9 in
    let r =
      (publishing_store inner (recorder refuses)).confirm_pending 50 "ii" ((shop, warm), []) in
    let (told, kept) = confirm_pending 50 "ii" shop in
    (r.0 ≡ wrapped "publishing store: confirm: %w" (wrapped "caching store: confirm: %w" told))
    × (r.1.0.0 ≡ kept)
    × IsCoherent slot slot-IsLawful r.1.0.0 r.1.0.1
    × (r.1.1 ≡ owed_confirm 50 "ii" told)
stack_confirms_example =
    stack_confirms tally slot slot-IsLawful 9 refuses 50 "ii" shop warm [] (refl, refl)
      warm-IsCoherent

stack_cancels_example :
    let inner = caching_store (in_memory tally) slot 9 in
    let r =
      (publishing_store inner (recorder refuses)).cancel_stale_pending 50 30 ((shop, warm), []) in
    (r.0 ≡ ok (stale_ids 30 shop.orders))
    × (r.1.0.0 ≡ (cancel_stale_pending 50 30 shop).1)
    × IsCoherent slot slot-IsLawful r.1.0.0 r.1.0.1
    × (r.1.1 ≡ owed_cancels 50 (stale_ids 30 shop.orders))
stack_cancels_example =
    stack_cancels tally slot slot-IsLawful 9 refuses 50 30 shop warm [] shop-Inv.distinct
      (refl, refl) warm-IsCoherent

-- A database whose state says whether the table is there; the pool comes at the third look.
abbrev bare_sql : Sql Bool ℕ
bare_sql = record {
  connected = λ d. true;
  create_table = λ d. (none, true);
  insert_order = λ c j s d. (err (foreign 1), d);
  select_order = λ id d. (err (foreign 1), d);
  select_orders = λ d. (err (foreign 1), d);
  update_status = λ s id p d. (err (foreign 1), d);
  exists_order = λ id d. (err (foreign 1), d);
  update_stale = λ s p c d. (err (foreign 1), d);
  marshal = λ items. ok (length items);
  unmarshal = λ j. ok [];
}

abbrev slow_start : PrepareWorld
slow_start = record { connected = λ n. n == 2; rounds = 5; expired = ctx_deadline }

abbrev no_start : PrepareWorld
no_start = record { connected = λ n. false; rounds = 5; expired = ctx_deadline }

abbrev swept : CleanupJob
swept = record { stale_after = 10; gated = true; warmed_up = true }

-- The one optional service is not there.
abbrev probed : Probing
probed = record { running = []; errs = "down" ∷ [] }

abbrev told : Err → String
told e = "down"

abbrev down : List (Option Err)
down = some (foreign 3) ∷ []

probed-Reach : Reach told (probe_all (Health.new 1 (health_options 2 swept down)).probers) probed
unfolding Health.new Health.configured health_options Health.apply_option probe
probed-Reach =
    next (next here (answers _ [] down none refl)) (answers _ [] [] (some (foreign 3)) refl)

abbrev ask : Request
ask = record { pattern_in = ""; pattern_out = "GET /readyz"; http_method = "GET"; path = "/readyz" }

program_ready_example :
    let w =
      serve 80 ask
        (record { actions = handle_readyz (λ es. ok (length es)) probed.errs; panics = false }) in
    (final_status w.wire ≡ 200 ↔ ((true ≡ true) × All (λ r. r ≡ none) down))
program_ready_example =
    program_ready told (λ es. ok (length es)) 80 ask 1 2 swept down probed probed-Reach refl

-- A pen for cat, confirmed at 60.
abbrev wanted : CreateRequest
wanted = record { customer_id = "cat"; items = pen ∷ [] }

abbrev rested : ProcessWorld
rested = record { now = 60; delay_done = none; ctx_err = none }

abbrev printed : ℕ → String
printed t = "2026-01-01T00:00:00Z"

order_journey_example :
    let store = journey_store tally printed refuses in
    let h = handle_create (λ id. none) store printed 50 (some wanted) (shop, []) in
    let (told, t) = process store rested "iii" h.state in
    (h.reply ≡ record {
      status = 201;
      body = order_body (record {
        id = "iii";
        customer_id = wanted.customer_id;
        status = "PENDING";
        items = wanted.items;
        created_at = printed 50;
        updated_at = printed 50;
      });
    })
    × (h.enqueued ≡ "iii" ∷ [])
    × (told ≡ order_confirmed)
    × ((handle_get store printed 70 "iii" t).reply ≡ record {
      status = 200;
      body = order_body (record {
        id = "iii";
        customer_id = wanted.customer_id;
        status = "CONFIRMED";
        items = wanted.items;
        created_at = printed 50;
        updated_at = printed 60;
      });
    })
    × (t.1 ≡ created_event tally printed refuses 50 wanted shop ∷ confirmed_event 60 "iii" ∷ [])
unfolding validate_new_order check_items
order_journey_example =
    order_journey tally printed refuses 50 wanted rested 70 shop [] (λ id. none) refl refl refl

abbrev part : ℕ → Service
part n = record { id = n; start = λ ctx. none; stop = some (λ ctx. none) }

abbrev parts : Parts
parts = record {
  http_srv = part 1;
  grpc_srv = part 2;
  health_srv = part 3;
  dashboard_srv = part 4;
  grpc_client = part 5;
  pool = part 6;
  cleanup = part 7;
  optional = part 8 ∷ [];
}

abbrev quiet : World
quiet = record { trigger = shut_down; alive = λ i. true; in_time = true }

program_unprepared_example :
    run quiet (
      entrypoint (preparing bare_sql 9 no_start (record { ready = false; database = false })) parts)
    ≡ (
      some (wrap "post-start: %w" [] (wrap "waiting for postgres connection: %w" [] ctx_deadline)),
      launch_all (services parts) ++ hooked post_start 9 caller ∷ services_canceled ∷ [],
    )
program_unprepared_example =
    program_unprepared bare_sql quiet parts 9 no_start (record { ready = false; database = false })
      (λ k le. refl)
