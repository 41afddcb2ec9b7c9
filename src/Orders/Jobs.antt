-- ===== src/Orders/Jobs.antt =====
-- example/orders-service/cleanup.go and worker.go: the periodic sweep and the work on one order.
pub mod Sweep
use gokit_services.Common.{
  ℕ, ◌-◌, String, Bool, true, false, Option, none, some, List, [], ◌∷◌, if◌then◌else◌,
}
use gokit_services.Common.Errors.{Err, Result, ok, err, wrap, errorf, text}
use gokit_services.Orders.{Store}

-- `warmed_up` is set once a sweep has gone through.
pub record CleanupJob : Type 0 where
  pub stale_after : ℕ
  pub gated : Bool
  pub warmed_up : Bool

pub data CleanupOption : Type 0 where
  with_ready_gate : CleanupOption

unfoldable pub new_cleanup_job : ℕ → List CleanupOption → CleanupJob
new_cleanup_job d [] = record { stale_after = d; gated = false; warmed_up = false }
new_cleanup_job d (with_ready_gate ∷ os) = record (new_cleanup_job d os) { gated = true }

-- The outside of one call: what the ready gate returns, and `ctx.Err()` after a failed sweep.
pub record RunWorld : Type 0 where
  pub now : ℕ
  pub ready : Option Err
  pub ctx_err : Option Err

abbrev pub gate_error : CleanupJob → RunWorld → Option Err
gate_error j w = if j.gated then w.ready else none

module _ {S : Type 0} (store : Store S) where
  -- `cutoff` is `now` less the age; a number below zero, like zero, is before every creation time.
  sweep : RunWorld → CleanupJob → S → Option Err × (CleanupJob × S)
  sweep w j s =
      let (r, s') = store.cancel_stale_pending w.now (w.now - j.stale_after) s in
      elim r [
        | err e ↦ elim w.ctx_err [
          | some d ↦ (none, (j, s'))
          | none ↦ (some (wrap "cancel stale pending orders: %w" [] e), (j, s'))
        ]
        | ok canceled ↦ (none, (record j { warmed_up = true }, s'))
      ]

  unfoldable pub run : RunWorld → CleanupJob → S → Option Err × (CleanupJob × S)
  unfolding sweep
  run w j s = elim (gate_error j w) [ some e ↦ (none, (j, s)) | none ↦ sweep w j s ]

unfoldable pub probe : CleanupJob → Option Err
probe j =
    if j.warmed_up
    then none
    else some (errorf "cleanup job has not completed its first sweep yet" [])

-- `Enqueue`, by what the pool's `Submit` returns.
unfoldable pub enqueue : String → Option Err → Option Err
enqueue order_id none = none
enqueue order_id (some e) = some (wrap "enqueue order %s: %w" (text order_id ∷ []) e)

-- What `process` logs, or that it gave up without a word.
pub data Outcome : Type 0 where
  abandoned order_skipped order_confirmed : Outcome
  processing_failed : Err → Outcome

-- `delay_done` is the error of the context, if it is done before the delay is over.
pub record ProcessWorld : Type 0 where
  pub now : ℕ
  pub delay_done : Option Err
  pub ctx_err : Option Err

unfoldable pub process : {S : Type 0} → Store S → ProcessWorld → String → S → Outcome × S
process store w order_id s = elim w.delay_done [
  | some e ↦ (abandoned, s)
  | none ↦
      let (r, s') = store.confirm_pending w.now order_id s in
      elim r [
        | err e ↦ (elim w.ctx_err [ some d ↦ abandoned | none ↦ processing_failed e ], s')
        | ok b ↦ (if b then order_confirmed else order_skipped, s')
      ]
]
