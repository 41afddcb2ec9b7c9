-- ===== src/Orders/LayerTests.antt =====
-- The layers over the store, on the same concrete store.
use gokit_services.Common.{◌≡◌, String, str_eq, Option, some, none, [], ◌∷◌, if◌then◌else◌}
use gokit_services.Common.Assoc.{lookup}
use gokit_services.Common.Errors.{Err, foreign}
use gokit_services.Orders.{Store}
use gokit_services.Orders.Memory.{InMemoryStore, in_memory, confirm_pending}
use gokit_services.Orders.Publishing.{OrderEvent, publishing_store, confirmed_event}
use gokit_services.Orders.Publishing.Events.{publishing_events, recorder, owed_create, owed_cancel}
use gokit_services.Orders.Api.{CreateRequest, handle_create, create_order}
use gokit_services.Orders.Api.Agreement.{Agree, create_agrees}
use gokit_services.Orders.Caching.{caching_store}
use gokit_services.Orders.Caching.Exact.{IsExact, get-IsExact}
use gokit_services.Orders.Slot.{slot, slot-IsLawful, warm, warm-IsCoherent}
use gokit_services.Orders.Shop.{tally, pen, shop}

-- A pool that is full.
abbrev full : String → Option Err
full id = some (foreign 2)

abbrev wanted : CreateRequest
wanted = record { customer_id = "cat"; items = pen ∷ [] }

create_agrees_example :
    Agree 201
      (handle_create full (in_memory tally) (λ now. "today") 50 (some wanted) shop)
      (create_order full (in_memory tally) 50 wanted shop)
create_agrees_example = create_agrees full (in_memory tally) (λ now. "today") 50 wanted shop

abbrev memory : Store InMemoryStore
memory = in_memory tally

-- The broker refuses the events of order "ii".
abbrev refuses : OrderEvent → Option Err
refuses ev = if str_eq ev.order_id "ii" then some (foreign 1) else none

publishing_events_example :
    let store = publishing_store memory (recorder refuses) in
    ((store.create 50 "cat" (pen ∷ []) (shop, [])).1.1
      ≡ owed_create 50 (memory.create 50 "cat" (pen ∷ []) shop).0)
    × ((store.confirm_pending 50 "ii" (shop, [])).1.1 ≡ confirmed_event 50 "ii" ∷ [])
    × ((store.cancel_stale_pending 50 30 (shop, [])).1.1
        ≡ owed_cancel 50 (memory.cancel_stale_pending 50 30 shop).0)
unfolding in_memory confirm_pending lookup
publishing_events_example = publishing_events memory refuses 50 30 "ii" "cat" (pen ∷ []) shop []

get-IsExact_example :
    IsExact tally slot slot-IsLawful 9 "ii" shop
      ((caching_store memory slot 9).get 50 "ii" (shop, warm))
get-IsExact_example = get-IsExact tally slot slot-IsLawful 9 50 "ii" shop warm warm-IsCoherent
