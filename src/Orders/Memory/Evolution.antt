-- ===== src/Orders/Memory/Evolution.antt =====
-- How an order may change in one call of the in-memory store.
use mathlib.Core.Option
use gokit_services.Common.{
  ℕ, ◌+◌, ◌%◌, ◌^◌, ◌<◌, ◌≡◌, refl, ◌∙◌, ap, subst, String, str_eq, eq_iff, true, ◌⊎◌, Bool-cases,
  inl, inr, some, List, arith,
}
use gokit_services.Common.Assoc.{lookup, lookup-insert}
use gokit_services.Orders.{Order, Item, confirmed, canceled}
use gokit_services.Orders.Memory.{
  InMemoryStore, is_pending, is_stale, confirm_pending, cancel_one, cancel_stale_pending, create,
  created, Call, creates, confirms, cancels, step,
}
use gokit_services.Orders.Memory.Lookups.{Confirms-at, lookup-cancel_entries, confirm_elsewhere}
use gokit_services.Orders.Memory.Invariant.{Inv, IsInjective, lookup-fresh, next_small}

-- One order before and after: unchanged, or taken out of the pending state and otherwise the same.
pub data Evolves (o p : Order) : Type 0 where
  stays : p ≡ o → Evolves o p
  settles :
      is_pending o.status ≡ true
      → (p.status ≡ confirmed) ⊎ (p.status ≡ canceled)
      → (p.id ≡ o.id)
        × (p.customer_id ≡ o.customer_id)
        × (p.items ≡ o.items)
        × (p.created_at ≡ o.created_at)
      → Evolves o p

stale_pending : (cutoff : ℕ) (o : Order) → is_stale cutoff o ≡ true → is_pending o.status ≡ true
stale_pending cutoff o h = ground arith

cancel_one-Evolves : (now cutoff : ℕ) (o : Order) → Evolves o (cancel_one now cutoff o)
cancel_one-Evolves now cutoff o = elim (Bool-cases (is_stale cutoff o)) [
  | inl h ↦ rw h (settles (stale_pending cutoff o h) (inr refl) (refl, refl, refl, refl))
  | inr h ↦ rw h (stays refl)
]

module _ (format_id : ℕ → String) where
  confirm_self :
      (now : ℕ) (id : String) (s : InMemoryStore) (o : Order)
      → lookup id s.orders ≡ some o
      → (p : Order) × (lookup id (confirm_pending now id s).1.orders ≡ some p) × Evolves o p
  confirm_self now id s o e =
      let (if_pending, if_not) = Confirms-at now id s (some o) e in
      elim (Bool-cases (is_pending o.status)) [
        | inl h ↦ (
          record o { status = confirmed; updated_at = now },
          (if_pending h).1,
          settles h (inl refl) (refl, refl, refl, refl),
        )
        | inr h ↦ (o, ap (λ r. lookup id r.1.orders) (if_not h) ∙ e, stays refl)
      ]

  confirm-Evolves :
      (now : ℕ) (id k : String) (s : InMemoryStore) (o : Order)
      → lookup k s.orders ≡ some o
      → (p : Order) × (lookup k (confirm_pending now id s).1.orders ≡ some p) × Evolves o p
  confirm-Evolves now id k s o e = elim (Bool-cases (str_eq id k)) [
    | inl h ↦
        let same : id ≡ k = (eq_iff id k).0 h in
        subst
          (λ j. (p : Order) × (lookup j (confirm_pending now id s).1.orders ≡ some p) × Evolves o p)
          same (confirm_self now id s o (ap (λ j. lookup j s.orders) same ∙ e))
    | inr h ↦ (o, confirm_elsewhere now id k s h ∙ e, stays refl)
  ]

  create_elsewhere :
      (now : ℕ) (customer : String) (items : List Item) (s : InMemoryStore) (k : String) (o : Order)
      → IsInjective format_id
      → s.next_id + 1 < 2 ^ 64
      → Inv format_id s
      → lookup k s.orders ≡ some o
      → lookup k (create format_id now customer items s).1.orders ≡ some o
  unfolding create
  create_elsewhere now customer items s k o inj h v e =
      let n = (s.next_id + 1) % 2 ^ 64 in
      let up : n ≡ s.next_id + 1 = next_small format_id s.next_id h in
      let fresh = lookup-fresh format_id s.next_id n s.orders inj v.named (omega (arith, up)) in
      ground (
        arith,
        lookup-insert (format_id n) k (created format_id now customer items s) s.orders,
        eq_iff (format_id n) k,
        fresh,
      )

  -- In one call of the store, as long as the counter does not wrap and ids are distinct prints, no
  -- order disappears, and an order changes only from pending to confirmed or canceled; its id, its
  -- customer, its items and its creation time never change.
  pub step-Evolves :
      (s : InMemoryStore) (c : Call) (k : String) (o : Order)
      → IsInjective format_id
      → s.next_id + 1 < 2 ^ 64
      → Inv format_id s
      → lookup k s.orders ≡ some o
      → (p : Order) × (lookup k (step format_id s c).orders ≡ some p) × Evolves o p
  unfolding step cancel_stale_pending
  step-Evolves s (creates now customer items) k o inj h v e =
      (o, create_elsewhere now customer items s k o inj h v e, stays refl)
  step-Evolves s (confirms now id) k o inj h v e = confirm-Evolves now id k s o e
  step-Evolves s (cancels now cutoff) k o inj h v e = (
    cancel_one now cutoff o,
    lookup-cancel_entries now cutoff k s.orders ∙ ap (Option.map (cancel_one now cutoff)) e,
    cancel_one-Evolves now cutoff o,
  )
