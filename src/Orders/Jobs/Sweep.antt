-- ===== src/Orders/Jobs/Sweep.antt =====
-- The cleanup job over the in-memory store, and when it is ready.
use mathlib.Core.Option
use mathlib.Core.Path.{fun_ext}
use gokit_services.Common.{
  [], Option-cases, ℕ, ◌+◌, ◌-◌, ◌≡◌, refl, ap, ◌∙◌, String, true, ◌&&◌, ltb, none, some, List,
  arith, inl, inr, ◌⊎◌, if◌then◌else◌,
}
use gokit_services.Common.Errors.{Err, Result, ok, err, wrap, Result-cases}
use gokit_services.Common.Assoc.{lookup}
use gokit_services.Orders.{Order, canceled, Store}
use gokit_services.Orders.Memory.{InMemoryStore, in_memory, is_pending, cancel_one}
use gokit_services.Orders.Memory.Lookups.{lookup-cancel_entries}
use gokit_services.Orders.Jobs.{CleanupJob, RunWorld, gate_error, run, sweep, probe}

-- An order as the sweep at `now` leaves it: canceled exactly if it is pending and older than the age.
abbrev pub swept : ℕ → ℕ → Order → Order
swept now age o =
    if is_pending o.status && ltb (o.created_at + age) now
    then record o { status = canceled; updated_at = now }
    else o

swept-eq : (now age : ℕ) (o : Order) → cancel_one now (now - age) o ≡ swept now age o
swept-eq now age o = ground arith

-- When its gate is passed, one call of the job over the in-memory store returns nil, makes the job
-- ready, and cancels exactly the orders that are pending and were created more than `staleAfter`
-- before; all other orders are as they were.
run_sweeps :
    (format_id : ℕ → String) (w : RunWorld) (j : CleanupJob) (s : InMemoryStore) (k : String)
    → gate_error j w ≡ none
    → let r = run (in_memory format_id) w j s in
      (r.0 ≡ none)
      × (probe r.1.0 ≡ none)
      × (lookup k r.1.1.orders ≡ Option.map (swept w.now j.stale_after) (lookup k s.orders))
unfolding run sweep in_memory probe
run_sweeps format_id w j s k h =
    rw (h, run)
      (
        refl,
        refl,
        lookup-cancel_entries w.now (w.now - j.stale_after) k s.orders
            ∙ ap (λ f. Option.map f (lookup k s.orders)) (fun_ext (swept-eq w.now j.stale_after)),
      )

module _ {S : Type 0} (store : Store S) (w : RunWorld) (j : CleanupJob) (s : S) where
  abbrev pub outcome : Result (List String)
  outcome = (store.cancel_stale_pending w.now (w.now - j.stale_after) s).0

  -- The error is the store's, on a call that passed its gate and whose context is alive.
  abbrev pub Reports : Err → Type 0
  Reports e =
      (gate_error j w ≡ none)
      × (w.ctx_err ≡ none)
      × ((x : Err) × (outcome ≡ err x) × (e ≡ wrap "cancel stale pending orders: %w" [] x))

  blocked :
      (x : Err)
      → gate_error j w ≡ some x
      → ((run store w j s).1.0 ≡ j) × ((e : Err) → (run store w j s).0 ≡ some e → Reports e)
  unfolding run
  blocked x g = rw (g, run) (refl, λ e h. cc)

  swept_run :
      (ids : List String)
      → gate_error j w ≡ none
      → outcome ≡ ok ids
      → ((run store w j s).1.0 ≡ record j { warmed_up = true })
        × ((run store w j s).0 ≡ none)
        × (gate_error j w ≡ none)
        × ((is : List String) × (outcome ≡ ok is))
  unfolding run sweep
  swept_run ids g e = (ground arith, ground arith, g, (ids, e))

  failed_run :
      (x : Err)
      → gate_error j w ≡ none
      → outcome ≡ err x
      → ((run store w j s).1.0 ≡ j) × ((e : Err) → (run store w j s).0 ≡ some e → Reports e)
  unfolding run sweep
  failed_run x g e = elim (Option-cases w.ctx_err) [
    | inl c ↦ (ground arith, λ f h. (g, c, (x, e, ground arith)))
    | inr (d, c) ↦ (ground arith, λ f h. absurd (ground arith))
  ]

-- Over any store: the job becomes ready only by a call that passed its gate and whose sweep
-- succeeded, and then it is ready; a gate that fails or a store that fails leaves it as it was, and
-- the call returns an error only for a failed store while its context is alive.
run_ready :
    {S : Type 0} (store : Store S) (w : RunWorld) (j : CleanupJob) (s : S)
    → let r = run store w j s in
      ((r.1.0 ≡ record j { warmed_up = true })
        × (r.0 ≡ none)
        × (gate_error j w ≡ none)
        × ((ids : List String) × (outcome store w j s ≡ ok ids)))
      ⊎ ((r.1.0 ≡ j) × ((e : Err) → r.0 ≡ some e → Reports store w j s e))
run_ready store w j s = elim (Option-cases (gate_error j w)) [
  | inr (x, g) ↦ inr (blocked store w j s x g)
  | inl g ↦ elim (Result-cases (store.cancel_stale_pending w.now (w.now - j.stale_after) s).0) [
    | inl (ids, e) ↦ inl (swept_run store w j s ids g e)
    | inr (x, e) ↦ inr (failed_run store w j s x g e)
  ]
]
