-- ===== src/Periodic/Overlap.antt =====
-- How many callbacks of pkg/periodic/service.go run at once, and what is left when `Start` returns.
use gokit_services.Common.{ℕ, ◌+◌, ◌≤◌, ◌≡◌, true, false, arith, if◌then◌else◌}
use gokit_services.Periodic.{
  Service, State, entered, first_call, looping, waiting, returned, Step, call_first, first_returns,
  skip_first, ticks, finishes, leaves, cancels, stops, returns, Reach, here, next, init, tick,
  finish,
}

-- The calls that the place of `Start` leaves room for: none before the first, one in it, and one in a
-- goroutine while `busy` is set.
abbrev room : State → ℕ
room s = elim s.place [
  | entered ↦ 0
  | first_call ↦ 1
  | looping ↦ if s.busy then 1 else 0
  | waiting ↦ if s.busy then 1 else 0
  | returned ↦ 0
]

pub record Inv (s : State) : Type 0 where
  pub single : s.overlapping ≡ false → s.running ≡ room s
  pub idle : s.place ≡ entered → s.busy ≡ false
  pub idle_first : s.place ≡ first_call → s.busy ≡ false
  pub empty : s.place ≡ returned → (s.running ≡ 0) × (s.leaving ≡ 0)
  pub counted : s.begun ≡ s.ended + s.running
  pub canceled : s.place ≡ waiting → s.ctx_done ≡ true
  pub quit : s.place ≡ returned → s.ctx_done ≡ true

init-Inv : (s : Service) → Inv (init s)
unfolding init
init-Inv s = ground arith

Step-Inv : {s t : State} → Step s t → Inv s → Inv t
unfolding tick finish
Step-Inv (call_first s p i) v = ground (arith, v.idle p)
Step-Inv (first_returns s n p r) v = ground (arith, v.idle_first p)
Step-Inv (skip_first s p i) v = ground (arith, v.idle p)
Step-Inv (ticks s p) v = ground arith
Step-Inv (finishes s n p r) v = ground arith
Step-Inv (leaves s n l) v = ground arith
Step-Inv (cancels s) v = ground arith
Step-Inv (stops s p d) v = ground arith
Step-Inv (returns s p r l) v = ground arith

Reach-Inv : {s t : State} → Inv s → Reach s t → Inv t
Reach-Inv v here = v
Reach-Inv v (next r st) = Step-Inv st (Reach-Inv v r)

-- Without overlapping, at most one callback runs at any time, the one of an immediate start included.
pub one_at_a_time :
    (s : Service) (t : State) → Reach (init s) t → t.overlapping ≡ false → t.running ≤ 1
one_at_a_time s t r o = let v = Reach-Inv (init-Inv s) r in ground (arith, v.single o)

-- `Start` returns only after its context is done, and when it has, no callback and no goroutine of
-- it is left: every callback that began has ended.
returned_done :
    (s : Service) (t : State)
    → Reach (init s) t
    → t.place ≡ returned
    → (t.ctx_done ≡ true) × (t.running ≡ 0) × (t.leaving ≡ 0) × (t.begun ≡ t.ended)
returned_done s t r p =
    let v = Reach-Inv (init-Inv s) r in
    let (a, b) = v.empty p in (v.quit p, a, b, omega (arith, v.counted, a))
