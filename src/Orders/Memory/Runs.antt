-- ===== src/Orders/Memory/Runs.antt =====
-- What holds of the in-memory store over any sequence of calls, in any interleaving of the API, the
-- workers and the cleanup job.
use gokit_services.Common.{
  ℕ, ◌+◌, ◌^◌, ◌<◌, ◌≡◌, refl, ap, ◌∙◌, inl, inr, String, Bool-cases, true, false, some, List, [],
  ◌∷◌, length, arith,
}
use gokit_services.Common.Errors.{ok}
use gokit_services.Common.Assoc.{lookup}
use gokit_services.Orders.{Order, confirmed}
use gokit_services.Orders.Memory.{
  InMemoryStore, new_in_memory_store, is_pending, confirm_pending, stale_ids, Call, confirms, step,
  run,
}
use gokit_services.Orders.Memory.Lookups.{contains, contains-stale_ids, stale_at, Confirms-at}
use gokit_services.Orders.Memory.Invariant.{Inv, new-Inv, step-Inv, next_id-step, IsInjective}
use gokit_services.Orders.Memory.Evolution.{Evolves, stays, settles, step-Evolves}

module _ (format_id : ℕ → String) where
  run-Inv :
      (s : InMemoryStore) (cs : List Call)
      → s.next_id + length cs < 2 ^ 64
      → Inv format_id s
      → Inv format_id (run format_id s cs)
  unfolding run
  run-Inv s [] h v = v
  run-Inv s (c ∷ cs) h v =
      run-Inv (step format_id s c) cs (omega (arith, next_id-step format_id s c (omega arith)))
        (step-Inv format_id s c (omega arith) v)

  -- After any sequence of fewer than 2^64 calls on a new store, in any order, the keys of the map are
  -- distinct, and each is the id of its order, which the store issued.
  run_new-Inv :
      (cs : List Call) → length cs < 2 ^ 64 → Inv format_id (run format_id new_in_memory_store cs)
  run_new-Inv cs h =
      run-Inv new_in_memory_store cs (unfold new_in_memory_store in omega arith) (new-Inv format_id)

  not_pending-stays : {o p : Order} → is_pending o.status ≡ false → Evolves o p → p ≡ o
  not_pending-stays h (stays e) = e
  not_pending-stays h (settles i s k) = cc

  -- An order of a well-formed store that is not pending is final: whatever calls follow, it is found
  -- unchanged. The ids of different numbers differ, and the calls are too few for the counter to wrap.
  pub run_final :
      (s : InMemoryStore) (cs : List Call) (k : String) (o : Order)
      → IsInjective format_id
      → s.next_id + length cs < 2 ^ 64
      → Inv format_id s
      → lookup k s.orders ≡ some o
      → is_pending o.status ≡ false
      → lookup k (run format_id s cs).orders ≡ some o
  unfolding run
  run_final s [] k o inj h v e d = e
  run_final s (c ∷ cs) k o inj h v e d =
      let (p, found, ev) = step-Evolves format_id s c k o inj (omega arith) v e in
      run_final (step format_id s c) cs k o inj
        (omega (arith, next_id-step format_id s c (omega arith)))
        (step-Inv format_id s c (omega arith) v) (found ∙ ap some (not_pending-stays d ev)) d

  just_confirmed :
      (s : InMemoryStore) (id : String) (o : Order) (now : ℕ)
      → lookup id s.orders ≡ some o
      → (confirm_pending now id s).0 ≡ ok true
      → lookup id (step format_id s (confirms now id)).orders
        ≡ some (record o { status = confirmed; updated_at = now })
  unfolding step
  just_confirmed s id o now e w =
      let (if_pending, if_not) = Confirms-at now id s (some o) e in
      elim (Bool-cases (is_pending o.status)) [
        | inl p ↦ (if_pending p).1
        | inr p ↦ cc (ap (λ r. r.0) (if_not p), w)
      ]

  -- The race between the workers and the cleanup job has one winner: once `ConfirmPending` has said
  -- that it confirmed an order of a well-formed store, the order stays confirmed whatever calls
  -- follow, no later `CancelStalePending` returns its id, and no later `ConfirmPending` claims it
  -- again. The ids of different numbers differ, and the calls are too few for the counter to wrap.
  pub confirmed_for_good :
      (s : InMemoryStore) (id : String) (o : Order) (now later cutoff : ℕ) (cs : List Call)
      → IsInjective format_id
      → s.next_id + 1 + length cs < 2 ^ 64
      → Inv format_id s
      → lookup id s.orders ≡ some o
      → (confirm_pending now id s).0 ≡ ok true
      → let t = run format_id (confirm_pending now id s).1 cs in
        (lookup id t.orders ≡ some (record o { status = confirmed; updated_at = now }))
        × (contains id (stale_ids cutoff t.orders) ≡ false)
        × ((confirm_pending later id t).0 ≡ ok false)
  unfolding step
  confirmed_for_good s id o now later cutoff cs inj h v e w =
      let s1 = step format_id s (confirms now id) in
      let o1 : Order = record o { status = confirmed; updated_at = now } in
      let t = run format_id s1 cs in
      let room : s1.next_id + length cs < 2 ^ 64 =
        omega (arith, next_id-step format_id s (confirms now id) (omega arith)) in
      let v1 = step-Inv format_id s (confirms now id) (omega arith) v in
      let found = run_final s1 cs id o1 inj room v1 (just_confirmed s id o now e w) refl in
      let vt = run-Inv s1 cs room v1 in
      (
        found,
        contains-stale_ids cutoff id t.orders vt.distinct ∙ ap (stale_at cutoff) found,
        ap (λ r. r.0) ((Confirms-at later id t (some o1) found).1 refl),
      )
