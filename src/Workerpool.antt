-- ===== src/Workerpool.antt =====
-- pkg/workerpool/pool.go: a bounded pool of workers over a buffered channel of tasks.
-- Tasks are numbers: what a task does is not the pool's concern. The goroutines' steps interleave
-- in any order; channels and wait groups behave as the Go language documents them.
pub mod Invariant
pub mod Drain
pub mod Client
mod Tests
use mathlib.Core.List.{foldl}
use gokit_services.Common.{
  ℕ, suc, ◌+◌, ◌*◌, ◌<◌, ◌≡◌, String, Bool, true, false, Option, none, some, List, [], ◌∷◌, ◌++◌,
  length,
}
use gokit_services.Common.Errors.{Err, errorf, wrap}

-- `Pool` before it runs: the size, the capacity of the channel, and the options. A logger is known
-- by a number, 0 for the default one.
pub record Pool : Type 0 where
  pub size : ℕ
  pub queue_size : ℕ
  pub drain_on_stop : Bool
  pub logger : ℕ

pub data PoolOption : Type 0 where
  with_queue_size : ℕ → PoolOption
  with_drain_on_stop : PoolOption
  with_logger : ℕ → PoolOption

unfoldable pub apply_option : Pool → PoolOption → Pool
apply_option p (with_queue_size n) = record p { queue_size = n }
apply_option p with_drain_on_stop = record p { drain_on_stop = true }
apply_option p (with_logger l) = record p { logger = l }

unfoldable pub new : ℕ → List PoolOption → Pool
unfolding apply_option
new size =
    foldl apply_option
      (record { size = size; queue_size = size * 2; drain_on_stop = false; logger = 0 })

-- The pool while it runs. `idle` workers wait at the channel, `running` holds the tasks in the hands
-- of the others, `exited` workers have left their loop. `accepted`, `taken` and `finished` record
-- the tasks sent, received and completed so far, for the statements.
pub record State : Type 0 where
  pub pool : Pool
  pub open pool use *
  pub started : Bool
  pub ctx_done : Bool
  pub closed : Bool
  pub returned : Bool
  pub queue : List ℕ
  pub idle : ℕ
  pub running : List ℕ
  pub exited : ℕ
  pub accepted : List ℕ
  pub taken : List ℕ
  pub finished : List ℕ

unfoldable pub init : Pool → State
init p = record {
  pool = p;
  started = false;
  ctx_done = false;
  closed = false;
  returned = false;
  queue = [];
  idle = 0;
  running = [];
  exited = 0;
  accepted = [];
  taken = [];
  finished = [];
}

-- `Start` launches the workers.
abbrev pub launched : State → State
launched s = record s { started = true; idle = s.size }

-- A task goes into the buffer.
abbrev pub sent : State → ℕ → State
sent s t = record s { queue = s.queue ++ t ∷ []; accepted = s.accepted ++ t ∷ [] }

-- A task goes straight to a worker that waits.
abbrev pub handed : State → ℕ → ℕ → State
handed s t n = record s {
  idle = n;
  running = t ∷ s.running;
  accepted = s.accepted ++ t ∷ [];
  taken = s.taken ++ t ∷ [];
}

-- A worker receives the oldest task of the buffer.
abbrev pub received : State → ℕ → List ℕ → ℕ → State
received s t rest n = record s {
  queue = rest;
  idle = n;
  running = t ∷ s.running;
  taken = s.taken ++ t ∷ [];
}

-- A worker completes a task and goes back to the channel.
abbrev pub completed : State → List ℕ → ℕ → List ℕ → State
completed s before t after = record s {
  idle = suc s.idle;
  running = before ++ after;
  finished = t ∷ s.finished;
}

-- `p.wg.Wait()` returns when every launched worker has exited.
abbrev pub AllExited : State → Type 0
AllExited s = (s.idle ≡ 0) × (s.running ≡ [])

abbrev pub MayReturn : State → Type 0
MayReturn s = s.drain_on_stop ≡ true → AllExited s

pub data Step : State → State → Type 0 where
  start : (s : State) → s.started ≡ false → Step s (launched s)
  send : (s : State) (t : ℕ) → s.closed ≡ false → length s.queue < s.queue_size → Step s (sent s t)
  hand :
      (s : State) (t n : ℕ)
      → s.closed ≡ false
      → s.queue ≡ []
      → s.idle ≡ suc n
      → Step s (handed s t n)
  receive :
      (s : State) (t : ℕ) (rest : List ℕ) (n : ℕ)
      → s.queue ≡ t ∷ rest
      → s.idle ≡ suc n
      → Step s (received s t rest n)
  complete :
      (s : State) (before : List ℕ) (t : ℕ) (after : List ℕ)
      → s.running ≡ before ++ t ∷ after
      → Step s (completed s before t after)
  cancel : (s : State) → Step s (record s { ctx_done = true })
  close :
      (s : State)
      → s.started ≡ true
      → s.ctx_done ≡ true
      → s.closed ≡ false
      → Step s (record s { closed = true })
  leave :
      (s : State) (n : ℕ)
      → s.closed ≡ true
      → s.queue ≡ []
      → s.idle ≡ suc n
      → Step s (record s { idle = n; exited = suc s.exited })
  return :
      (s : State)
      → s.closed ≡ true
      → s.returned ≡ false
      → MayReturn s
      → Step s (record s { returned = true })

pub data Reach (s : State) : State → Type 0 where
  here : Reach s s
  next : {t u : State} → Reach s t → Step t u → Reach s u

-- The ways in which the `select` of `Submit` can end: the task was sent, the submitter's context was
-- done, or the channel was closed and the send panicked, with what `ctx.Err()` is at the recovery.
pub data Select : Type 0 where
  was_sent : Select
  was_done : Err → Select
  panicked : Option Err → Select

unfoldable pub submit : Select → Option Err
submit was_sent = none
submit (was_done e) = some (wrap "submit: %w" [] e)
submit (panicked (some e)) = some (wrap "submit: %w" [] e)
submit (panicked none) = some (errorf "pool stopped" [])

-- Which ends a call can have in which state, with the state after it.
pub data Submits (s : State) (t : ℕ) : Select → State → Type 0 where
  by_buffer : s.closed ≡ false → length s.queue < s.queue_size → Submits s t was_sent (sent s t)
  by_hand :
      (n : ℕ)
      → s.closed ≡ false
      → s.queue ≡ []
      → s.idle ≡ suc n
      → Submits s t was_sent (handed s t n)
  by_ctx : (e : Err) → Submits s t (was_done e) s
  by_panic : (e : Option Err) → s.closed ≡ true → Submits s t (panicked e) s

-- How the wait in `Stop` ends: the workers have all exited, or the context is done.
pub data StopWait : Type 0 where
  all_done : StopWait
  stop_ctx_done : Err → StopWait

unfoldable pub stop : Pool → StopWait → Option Err
stop p w = elim p.drain_on_stop [
  | false ↦ none
  | true ↦ elim w [ all_done ↦ none | stop_ctx_done e ↦ some (wrap "pool stop: %w" [] e) ]
]
