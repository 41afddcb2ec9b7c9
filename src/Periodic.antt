-- ===== src/Periodic.antt =====
-- pkg/periodic/service.go: a callback that runs on every tick. The loop, the ticker and the callbacks'
-- goroutines interleave in any order.
pub mod Overlap
mod Tests
use mathlib.Core.List.{foldl}
use gokit_services.Common.{ℕ, suc, ◌+◌, ◌≡◌, ◌≢◌, Bool, true, false, List, if◌then◌else◌}

-- A callback and a logger are known by numbers.
pub record Service : Type 0 where
  pub interval : ℕ
  pub callback : ℕ
  pub overlapping : Bool
  pub immediate_start : Bool
  pub logger : ℕ

pub data ServiceOption : Type 0 where
  with_overlapping with_immediate_start : ServiceOption
  with_logger : ℕ → ServiceOption

unfoldable pub apply_option : Service → ServiceOption → Service
apply_option s with_overlapping = record s { overlapping = true }
apply_option s with_immediate_start = record s { immediate_start = true }
apply_option s (with_logger l) = record s { logger = l }

unfoldable pub new : ℕ → ℕ → List ServiceOption → Service
unfolding apply_option
new interval callback = foldl apply_option (record {
  interval = interval;
  callback = callback;
  overlapping = false;
  immediate_start = false;
  logger = 0;
})

-- Where `Start` stands: before the call that comes first, in it, in the loop, at `wg.Wait()`, or
-- returned.
pub data Place : Type 0 where
  entered first_call looping waiting returned : Place

-- `running` callbacks have begun and not returned; `leaving` goroutines are past their callback and
-- have not told the wait group yet. `begun`, `ended` and `skipped` count calls and ticks, for the
-- statements.
pub record State : Type 0 where
  pub service : Service
  pub open service use *
  pub place : Place
  pub ctx_done : Bool
  pub busy : Bool
  pub running : ℕ
  pub leaving : ℕ
  pub begun : ℕ
  pub ended : ℕ
  pub skipped : ℕ

unfoldable pub init : Service → State
init s = record {
  service = s;
  place = entered;
  ctx_done = false;
  busy = false;
  running = 0;
  leaving = 0;
  begun = 0;
  ended = 0;
  skipped = 0;
}

-- A tick: a goroutine with the callback, unless one is busy and overlapping is off.
unfoldable pub tick : State → State
tick s =
    if s.overlapping
    then record s { running = suc s.running; begun = suc s.begun }
    else if s.busy
    then record s { skipped = suc s.skipped }
    else record s { busy = true; running = suc s.running; begun = suc s.begun }

-- A callback returns in its goroutine, of which `n` others run; without overlapping, `busy` is reset.
unfoldable pub finish : State → ℕ → State
finish s n =
    let t = record s { running = n; leaving = suc s.leaving; ended = suc s.ended } in
    if s.overlapping then t else record t { busy = false }

pub data Step : State → State → Type 0 where
  call_first :
      (s : State)
      → s.place ≡ entered
      → s.immediate_start ≡ true
      → Step s (record s { place = first_call; running = suc s.running; begun = suc s.begun })
  first_returns :
      (s : State) (n : ℕ)
      → s.place ≡ first_call
      → s.running ≡ suc n
      → Step s (record s { place = looping; running = n; ended = suc s.ended })
  skip_first :
      (s : State)
      → s.place ≡ entered
      → s.immediate_start ≡ false
      → Step s (record s { place = looping })
  ticks : (s : State) → s.place ≡ looping → Step s (tick s)
  finishes : (s : State) (n : ℕ) → s.place ≢ first_call → s.running ≡ suc n → Step s (finish s n)
  leaves : (s : State) (n : ℕ) → s.leaving ≡ suc n → Step s (record s { leaving = n })
  cancels : (s : State) → Step s (record s { ctx_done = true })
  stops :
      (s : State) → s.place ≡ looping → s.ctx_done ≡ true → Step s (record s { place = waiting })
  returns :
      (s : State)
      → s.place ≡ waiting
      → s.running ≡ 0
      → s.leaving ≡ 0
      → Step s (record s { place = returned })

pub data Reach (s : State) : State → Type 0 where
  here : Reach s s
  next : {t u : State} → Reach s t → Step t u → Reach s u
