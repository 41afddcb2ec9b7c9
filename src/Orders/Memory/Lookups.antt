-- ===== src/Orders/Memory/Lookups.antt =====
-- What `Get` finds after each operation of the in-memory store.
use mathlib.Core.Option
use gokit_services.Common.{
  ℕ, ◌≡◌, refl, String, str_eq, eq_iff, eq_refl, Bool, true, false, ◌||◌, Option-cases, inl, inr,
  Option, none, some, List, [], ◌∷◌, arith,
}
use gokit_services.Common.Errors.{ok, err, order_not_found}
use gokit_services.Common.Assoc.{Assoc, lookup, lookup-insert}
use gokit_services.Orders.{Order, confirmed}
use gokit_services.Orders.Memory.{
  InMemoryStore, is_pending, is_stale, confirm_pending, cancel_one, cancel_entries, stale_ids,
  cancel_stale_pending,
}

-- `slices.Contains`, for the statements.
abbrev pub contains : String → List String → Bool
contains k [] = false
contains k (x ∷ xs) = str_eq x k || contains k xs

-- No key stands twice, as in every map.
abbrev pub Distinct {ℓ} : {V : Type ℓ} → Assoc V → Type ℓ
Distinct [] = Unit
Distinct ((k, v) ∷ m) = (lookup k m ≡ none) × Distinct m

pub lookup-cancel_entries :
    (now cutoff : ℕ) (k : String) (m : Assoc Order)
    → lookup k (cancel_entries now cutoff m) ≡ Option.map (cancel_one now cutoff) (lookup k m)
unfolding lookup cancel_entries
lookup-cancel_entries now cutoff k [] = refl
lookup-cancel_entries now cutoff k ((j, o) ∷ m) =
    ground (arith, lookup-cancel_entries now cutoff k m)

abbrev pub stale_at : ℕ → Option Order → Bool
stale_at cutoff none = false
stale_at cutoff (some o) = is_stale cutoff o

pub contains-stale_ids :
    (cutoff : ℕ) (k : String) (m : Assoc Order)
    → Distinct m
    → contains k (stale_ids cutoff m) ≡ stale_at cutoff (lookup k m)
unfolding lookup stale_ids
contains-stale_ids cutoff k [] d = refl
contains-stale_ids cutoff k ((j, o) ∷ m) d =
    ground (arith, eq_iff j k, contains-stale_ids cutoff k m d.1)

-- On a map whose keys are distinct, as every map's are,
-- `CancelStalePending` cancels an order exactly if it is pending and was created before the cutoff,
-- changes nothing else of it and no other order, and returns exactly the ids of the canceled ones.
cancel_stale_pending_lem :
    (now cutoff : ℕ) (s : InMemoryStore) (k : String)
    → Distinct s.orders
    → (lookup k (cancel_stale_pending now cutoff s).1.orders
        ≡ Option.map (cancel_one now cutoff) (lookup k s.orders))
      × ((cancel_stale_pending now cutoff s).0 ≡ ok (stale_ids cutoff s.orders))
      × (contains k (stale_ids cutoff s.orders) ≡ stale_at cutoff (lookup k s.orders))
unfolding cancel_stale_pending
cancel_stale_pending_lem now cutoff s k d =
    (lookup-cancel_entries now cutoff k s.orders, refl, contains-stale_ids cutoff k s.orders d)

-- What `ConfirmPending` makes of the order under its id, and what it tells.
abbrev pub Confirms : ℕ → String → InMemoryStore → Option Order → Type 0
Confirms now id s none = confirm_pending now id s ≡ (err order_not_found, s)
Confirms now id s (some o) =
    (is_pending o.status ≡ true
      → ((confirm_pending now id s).0 ≡ ok true)
        × (lookup id (confirm_pending now id s).1.orders
            ≡ some (record o { status = confirmed; updated_at = now })))
    × (is_pending o.status ≡ false → confirm_pending now id s ≡ (ok false, s))

pub Confirms-at :
    (now : ℕ) (id : String) (s : InMemoryStore) (o : Option Order)
    → lookup id s.orders ≡ o
    → Confirms now id s o
unfolding confirm_pending
Confirms-at now id s none e = rw (e, confirm_pending) refl
Confirms-at now id s (some o) e = (
  (λ p. ground (
    arith,
    lookup-insert id id (record o { status = confirmed; updated_at = now }) s.orders,
    eq_refl id,
  )),
  λ p. ground arith,
)

pub confirm_elsewhere :
    (now : ℕ) (id k : String) (s : InMemoryStore)
    → str_eq id k ≡ false
    → lookup k (confirm_pending now id s).1.orders ≡ lookup k s.orders
unfolding confirm_pending
confirm_elsewhere now id k s h = elim (Option-cases (lookup id s.orders)) [
  | inl e ↦ rw (e, confirm_pending) refl
  | inr (o, e) ↦
      rw (e, confirm_pending)
        (ground
          (arith, lookup-insert id k (record o { status = confirmed; updated_at = now }) s.orders))
]

-- `ConfirmPending` on every branch: an unknown id is an error and changes nothing; a pending order
-- becomes confirmed, and only its status and time change; any other order is left as it is, and the
-- call says that it confirmed nothing. No call changes another order.
confirm_pending_lem :
    (now : ℕ) (id k : String) (s : InMemoryStore)
    → Confirms now id s (lookup id s.orders)
      × (str_eq id k ≡ false → lookup k (confirm_pending now id s).1.orders ≡ lookup k s.orders)
unfolding confirm_pending
confirm_pending_lem now id k s =
    (Confirms-at now id s (lookup id s.orders) refl, confirm_elsewhere now id k s)
