-- ===== src/Workerpool/Client.antt =====
-- What the callers of `Submit` and `Stop` are told, against what happened to the pool.
use mathlib.Core.List.{Perm}
use gokit_services.Common.{
  ℕ, ◌<◌, ◌≡◌, refl, ◌⊎◌, inl, inr, true, false, none, some, [], ◌∷◌, ◌++◌, arith,
}
use gokit_services.Common.Errors.{Err}
use gokit_services.Workerpool.{
  Pool, State, Step, send, hand, Reach, init, AllExited, Submits, by_buffer, by_hand, by_ctx,
  by_panic, Select, submit, StopWait, all_done, stop_ctx_done, stop,
}
use gokit_services.Workerpool.Drain.{Reach-Good, init-Good, Good-finished, exited_queue}

-- `Submit` tells the truth: when it returns nil the channel was open and the task was accepted,
-- behind all others, by a step of the pool; when it returns an error the pool is as it was.
submit_told :
    (s u : State) (t : ℕ) (o : Select)
    → Submits s t o u
    → ((submit o ≡ none) × (s.closed ≡ false) × (u.accepted ≡ s.accepted ++ t ∷ []) × Step s u)
      ⊎ ((e : Err) × (submit o ≡ some e) × (u ≡ s))
unfolding submit
submit_told s u t o (by_buffer c l) = inl (refl, c, refl, send s t c l)
submit_told s u t o (by_hand n c q i) = inl (refl, c, refl, hand s t n c q i)
submit_told s u t o (by_ctx e) = inr (_, refl, refl)
submit_told s u t o (by_panic (some e) c) = inr (_, refl, refl)
submit_told s u t o (by_panic none c) = inr (_, refl, refl)

-- The ends that a wait in `Stop` can have: it is over by itself only if no worker is left.
pub data Stops (s : State) : StopWait → Type 0 where
  no_worker : AllExited s → Stops s all_done
  expired : (e : Err) → Stops s (stop_ctx_done e)

-- When `Stop` of a started draining pool with at least one worker returns nil, every accepted task
-- is finished, once.
pub stop_drained :
    (p : Pool) (s : State) (w : StopWait)
    → 0 < s.size
    → Reach (init p) s
    → s.started ≡ true
    → s.drain_on_stop ≡ true
    → Stops s w
    → stop s.pool w ≡ none
    → Perm s.accepted s.finished
unfolding stop
stop_drained p s w n r st d (no_worker (i, run)) e =
    let g = Reach-Good (init-Good p) r in
    Good-finished s g (exited_queue s g.inv st i run refl n) run
stop_drained p s w n r st d (expired x) e = absurd (ground arith)
