-- ===== src/Workerpool/Invariant.antt =====
-- What holds of the pool in every state that it can reach.
use gokit_services.Common.{
  ℕ, ◌+◌, ◌≤◌, ◌<◌, ◌≡◌, refl, ap, Bool, true, false, [], ◌∷◌, ◌++◌, arith, length, length-append,
  append_assoc, append-nil,
}
use gokit_services.Workerpool.{
  Pool, State, Step, Reach, here, next, start, send, hand, receive, complete, cancel, close, leave,
  return, init,
}

abbrev workers : Bool → ℕ → ℕ
workers true n = n
workers false n = 0

-- The channel holds at most its capacity; no worker is lost; the workers received the tasks in the
-- order in which they were accepted; workers leave only when the channel is closed and empty; the
-- channel is closed only by a `Start` whose context is done; `Start` returns after closing it.
pub record Inv (s : State) : Type 0 where
  pub bounded : length s.queue ≤ s.queue_size
  pub counted : s.idle + length s.running + s.exited ≡ workers s.started s.size
  pub fifo : s.taken ++ s.queue ≡ s.accepted
  pub stays : s.closed ≡ false → s.exited ≡ 0
  pub empties : 0 < s.exited → s.queue ≡ []
  pub closes : s.closed ≡ true → (s.started ≡ true) × (s.ctx_done ≡ true)
  pub returns : s.returned ≡ true → s.closed ≡ true

pub init-Inv : (p : Pool) → Inv (init p)
unfolding init
init-Inv p = record {
  bounded = omega arith;
  counted = omega arith;
  fifo = refl;
  stays = λ h. refl;
  empties = λ h. refl;
  closes = λ h. cc;
  returns = λ h. cc;
}

pub Step-Inv : {s t : State} → Step s t → Inv s → Inv t
Step-Inv (start s h) v = ground (arith, v.closes)
Step-Inv (send s t h l) v =
    ground (arith, length-append s.queue (t ∷ []), append_assoc s.taken s.queue (t ∷ []), v.stays h)
Step-Inv (hand s t n h q i) v = ground (
  arith,
  append_assoc s.taken s.queue (t ∷ []),
  append-nil s.taken,
  append-nil (s.taken ++ t ∷ []),
  v.stays h,
)
Step-Inv (receive s t rest n q i) v = ground (arith, append_assoc s.taken (t ∷ []) rest)
Step-Inv (complete s before t after r) v =
    ground (arith, ap length r, length-append before (t ∷ after), length-append before after)
Step-Inv (cancel s) v = ground arith
Step-Inv (close s h c o) v = ground arith
Step-Inv (leave s n c q i) v = ground arith
Step-Inv (return s c r m) v = ground arith

pub Reach-Inv : {s t : State} → Inv s → Reach s t → Inv t
Reach-Inv v here = v
Reach-Inv v (next r st) = Step-Inv st (Reach-Inv v r)

-- In every state that the pool can reach: the channel holds no more than its capacity, no more tasks
-- run at once than there are workers, the workers received the tasks in the order in which `Submit`
-- accepted them, and nothing but the buffered tasks is still to be received.
pub reachable :
    (p : Pool) (s : State)
    → Reach (init p) s
    → (length s.queue ≤ s.queue_size)
      × (length s.running ≤ s.size)
      × (s.taken ++ s.queue ≡ s.accepted)
reachable p s r = let v = Reach-Inv (init-Inv p) r in (v.bounded, ground (arith, v.counted), v.fifo)
