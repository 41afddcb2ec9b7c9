-- ===== src/Orders/Memory.antt =====
-- example/orders-service/store_memory.go: the in-memory store. Every method runs under one mutex, so
-- a method is one step. `Create` takes its number by an atomic addition just before the lock, and two
-- calls may take the lock in the other order; here the number and the insertion are one step. A pointer in the map is written through by an `insert` at its key.
pub mod Lookups
pub mod Listing
pub mod Invariant
pub mod Evolution
pub mod Runs
use gokit_services.Common.{
  ℕ, zero, suc, ◌+◌, ◌%◌, ◌^◌, String, Bool, true, false, ◌&&◌, Option, none, some, List, [], ◌∷◌,
  map, ltb, if◌then◌else◌,
}
use gokit_services.Common.Errors.{Result, ok, err, order_not_found}
use gokit_services.Common.Assoc.{Assoc, lookup, insert}
use gokit_services.Orders.{Order, Item, Status, pending, confirmed, canceled, other, Store}

pub record InMemoryStore : Type 0 where
  pub orders : Assoc Order
  pub next_id : ℕ  -- uint64

unfoldable pub new_in_memory_store : InMemoryStore
new_in_memory_store = record { orders = []; next_id = 0 }

abbrev pub is_pending : Status → Bool
is_pending pending = true
is_pending _ = false

unfoldable pub get : String → InMemoryStore → Result Order
get id s = elim (lookup id s.orders) [ none ↦ err order_not_found | some o ↦ ok o ]

unfoldable pub list : InMemoryStore → List Order
list s = map (λ e. e.1) s.orders

unfoldable pub confirm_found : ℕ → String → InMemoryStore → Order → Result Bool × InMemoryStore
confirm_found now id s o =
    if is_pending o.status
    then (
      ok true,
      record s { orders = insert id (record o { status = confirmed; updated_at = now }) s.orders },
    )
    else (ok false, s)

unfoldable pub confirm_pending : ℕ → String → InMemoryStore → Result Bool × InMemoryStore
unfolding confirm_found
confirm_pending now id s = elim (lookup id s.orders) [
  | none ↦ (err order_not_found, s)
  | some o ↦ confirm_found now id s o
]

-- `o.Status == StatusPending && o.CreatedAt.Before(cutoff)`
abbrev pub is_stale : ℕ → Order → Bool
is_stale cutoff o = is_pending o.status && ltb o.created_at cutoff

abbrev pub cancel_one : ℕ → ℕ → Order → Order
cancel_one now cutoff o =
    if is_stale cutoff o then record o { status = canceled; updated_at = now } else o

-- The loop over the map: the orders after it, and the keys of the canceled ones. One time stands for
-- the `time.Now()` of every order that the loop cancels.
unfoldable pub cancel_entries : ℕ → ℕ → Assoc Order → Assoc Order
cancel_entries now cutoff [] = []
cancel_entries now cutoff ((k, o) ∷ m) = (k, cancel_one now cutoff o) ∷ cancel_entries now cutoff m

unfoldable pub stale_ids : ℕ → Assoc Order → List String
stale_ids cutoff [] = []
stale_ids cutoff ((k, o) ∷ m) =
    let rest = stale_ids cutoff m in if is_stale cutoff o then k ∷ rest else rest

unfoldable pub cancel_stale_pending : ℕ → ℕ → InMemoryStore → Result (List String) × InMemoryStore
unfolding cancel_entries stale_ids
cancel_stale_pending now cutoff s =
    (ok (stale_ids cutoff s.orders), record s { orders = cancel_entries now cutoff s.orders })

-- The calls that change a store, each with the time at which it is made.
pub data Call : Type 0 where
  creates : ℕ → String → List Item → Call
  confirms : ℕ → String → Call
  cancels : ℕ → ℕ → Call

-- `format_id n` is `fmt.Sprintf("ord_%d", n)`.
module _ (format_id : ℕ → String) where
  abbrev next : InMemoryStore → ℕ
  next s = (s.next_id + 1) % 2 ^ 64

  abbrev created : ℕ → String → List Item → InMemoryStore → Order
  created now customer_id items s = record {
    id = format_id (next s);
    customer_id = customer_id;
    items = items;
    status = pending;
    created_at = now;
    updated_at = now;
  }

  unfoldable pub create : ℕ → String → List Item → InMemoryStore → Result Order × InMemoryStore
  create now customer_id items s =
      let o = created now customer_id items s in
      (ok o, record { orders = insert o.id o s.orders; next_id = next s })

  -- The in-memory store as a `Store`.
  unfoldable pub in_memory : Store InMemoryStore
  unfolding create get list confirm_pending cancel_stale_pending
  in_memory = record {
    create = create;
    get = λ now id s. (get id s, s);
    list = λ now s. (ok (list s), s);
    confirm_pending = confirm_pending;
    cancel_stale_pending = cancel_stale_pending;
  }

  unfoldable pub step : InMemoryStore → Call → InMemoryStore
  unfolding create confirm_pending cancel_stale_pending
  step s (creates now customer_id items) = (create now customer_id items s).1
  step s (confirms now id) = (confirm_pending now id s).1
  step s (cancels now cutoff) = (cancel_stale_pending now cutoff s).1

  -- The calls of all goroutines, in the order in which they take the mutex.
  unfoldable pub run : InMemoryStore → List Call → InMemoryStore
  unfolding step
  run s [] = s
  run s (c ∷ cs) = run (step s c) cs
