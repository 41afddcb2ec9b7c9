-- ===== src/Orders/Asking.antt =====
-- A client of the `Store` interface of example/orders-service/order.go: what it asks, what it is
-- answered, and when two stores answer alike.
use mathlib.Core.List.{Perm}
use gokit_services.Common.{ℕ, ◌≡◌, String, Bool, true, List, [], ◌∷◌}
use gokit_services.Common.Errors.{Result, ok, err, is_order_not_found}
use gokit_services.Orders.{Order, Item, Store}
use gokit_services.Orders.Memory.Lookups.{contains}

-- A call of the interface, with the time at which it is made.
pub data Request : Type 0 where
  creates : ℕ → String → List Item → Request
  gets confirms : ℕ → String → Request
  lists : ℕ → Request
  cancels : ℕ → ℕ → Request

pub data Answer : Type 0 where
  an_order : Result Order → Answer
  orders : Result (List Order) → Answer
  a_bool : Result Bool → Answer
  ids : Result (List String) → Answer

abbrev pub ask : {S : Type 0} → Store S → S → Request → Answer × S
ask store s (creates now customer_id items) =
    let (r, t) = store.create now customer_id items s in (an_order r, t)
ask store s (gets now id) = let (r, t) = store.get now id s in (an_order r, t)
ask store s (lists now) = let (r, t) = store.list now s in (orders r, t)
ask store s (confirms now id) = let (r, t) = store.confirm_pending now id s in (a_bool r, t)
ask store s (cancels now cutoff) =
    let (r, t) = store.cancel_stale_pending now cutoff s in (ids r, t)

-- The answers to the requests, in order.
abbrev pub ask_all : {S : Type 0} → Store S → S → List Request → List Answer
ask_all store s [] = []
ask_all store s (q ∷ qs) = let (a, t) = ask store s q in a ∷ ask_all store t qs

-- No error, or the one that the domain has for a missing order.
abbrev pub in_domain : {A : Type 0} → Result A → Bool
in_domain (ok a) = true
in_domain (err e) = is_order_not_found e

abbrev pub is_settled : Answer → Bool
is_settled (an_order r) = in_domain r
is_settled (orders r) = in_domain r
is_settled (a_bool r) = in_domain r
is_settled (ids r) = in_domain r

-- The same list up to order, and the same ids.
abbrev pub SameOrders : Result (List Order) → Result (List Order) → Type 0
SameOrders (ok os) (ok ps) = Perm os ps
SameOrders (ok os) (err e) = ⊥
SameOrders (err e) r = err e ≡ r

abbrev pub SameIds : Result (List String) → Result (List String) → Type 0
SameIds (ok is) (ok js) = (k : String) → contains k is ≡ contains k js
SameIds (ok is) (err e) = ⊥
SameIds (err e) r = err e ≡ r

abbrev pub Alike : Answer → Answer → Type 0
Alike (an_order r) (an_order q) = r ≡ q
Alike (orders r) (orders q) = SameOrders r q
Alike (a_bool r) (a_bool q) = r ≡ q
Alike (ids r) (ids q) = SameIds r q
Alike _ _ = ⊥

abbrev pub AllAlike : List Answer → List Answer → Type 0
AllAlike [] [] = Unit
AllAlike (a ∷ more) (b ∷ bs) = Alike a b × AllAlike more bs
AllAlike _ _ = ⊥
