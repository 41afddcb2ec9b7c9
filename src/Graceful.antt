-- ===== src/Graceful.antt =====
-- The life of a server that drains its requests before it stops: `Start`, `gracefulShutdown` and
-- `Stop` of pkg/http/server/server.go, and the same in pkg/grpc/server/server.go. `Start`, its
-- watcher of the context, the requests and the calls of `Stop`, one after another, interleave in any
-- order. A connection that a handler has hijacked is not the server's any more, and nothing waits for it.
pub mod Stopping
mod Tests
use gokit_services.Common.{ℕ, suc, ◌+◌, ◌≡◌, ◌⊎◌, String, Bool, true, false, Option, none, some, []}
use gokit_services.Common.Errors.{Err, wrap}

-- How the two servers differ: the format of `Stop`'s error, what `Start` makes of an error of `Serve`
-- that is not the end of a closed server, and whether a handler can take over its connection.
pub record Flavor : Type 0 where
  pub stop_format : String
  pub report : Err → Option Err
  pub may_hijack : Bool

-- `shutdownOnce`: nobody drains yet, somebody does, all is drained.
pub data Once : Type 0 where
  unused draining drained : Once

-- Where `Start` stands; in `closing` it has closed `quit` and waits for its watcher, and will return
-- that.
pub data StartPlace : Type 0 where
  not_started serving : StartPlace
  closing start_returned : Option Err → StartPlace

-- The goroutine of `Start` that waits for the context.
pub data Watcher : Type 0 where
  unborn watching stopping gone : Watcher

-- Where the last call of `Stop` stands; in `forcing` it has closed the connections.
pub data StopPlace : Type 0 where
  not_called waiting : StopPlace
  forcing : Err → StopPlace
  stop_returned : Option Err → StopPlace

-- `closed` says that the listener is closed for good. `accepted`, `served` and `cut` count the requests
-- that began, ended, and lost their connection, `taken` those whose handler took it over; `forced` says that some call of `Stop` closed the connections.
pub record State : Type 0 where
  pub start : StartPlace
  pub watcher : Watcher
  pub stop : StopPlace
  pub once : Once
  pub closed : Bool
  pub inflight : ℕ
  pub accepted : ℕ
  pub served : ℕ
  pub cut : ℕ
  pub taken : ℕ
  pub forced : Bool

abbrev pub init : State
init = record {
  start = not_started;
  watcher = unborn;
  stop = not_called;
  once = unused;
  closed = false;
  inflight = 0;
  accepted = 0;
  served = 0;
  cut = 0;
  taken = 0;
  forced = false;
}

-- `srv.Close()`
abbrev pub close_all : State → State
close_all s = record s { closed = true; inflight = 0; cut = s.cut + s.inflight; forced = true }

-- Who may enter `gracefulShutdown`: the watcher, or the goroutine of `Stop`.
abbrev pub Shuts : State → Type 0
Shuts s = (s.watcher ≡ stopping) ⊎ ((s.stop ≡ waiting) ⊎ ((e : Err) × (s.stop ≡ forcing e)))

abbrev pub expired : Flavor → Err → Option Err
expired f e = some (wrap f.stop_format [] e)

pub data Step (f : Flavor) : State → State → Type 0 where
  listens :
      (s : State)
      → s.start ≡ not_started
      → Step f s (record s { start = serving; watcher = watching })
  accepts :
      (s : State)
      → s.start ≡ serving
      → s.closed ≡ false
      → Step f s (record s { inflight = suc s.inflight; accepted = suc s.accepted })
  -- A connection that was accepted may still begin a request while the server drains.
  accepts_late :
      (s : State)
      → s.once ≡ draining
      → s.forced ≡ false
      → Step f s (record s { inflight = suc s.inflight; accepted = suc s.accepted })
  answers :
      (s : State) (n : ℕ)
      → s.inflight ≡ suc n
      → Step f s (record s { inflight = n; served = suc s.served })
  hijacks :
      (s : State) (n : ℕ)
      → f.may_hijack ≡ true
      → s.inflight ≡ suc n
      → Step f s (record s { inflight = n; taken = suc s.taken })
  ctx_done : (s : State) → s.watcher ≡ watching → Step f s (record s { watcher = stopping })
  quits :
      (s : State) (r : Option Err)
      → s.watcher ≡ watching
      → s.start ≡ closing r
      → Step f s (record s { watcher = gone })
  shuts :
      (s : State)
      → Shuts s
      → s.once ≡ unused
      → Step f s (record s { once = draining; closed = true })
  drains : (s : State) → s.once ≡ draining → s.inflight ≡ 0 → Step f s (record s { once = drained })
  watcher_ends :
      (s : State) → s.watcher ≡ stopping → s.once ≡ drained → Step f s (record s { watcher = gone })
  serve_closed :
      (s : State)
      → s.start ≡ serving
      → s.closed ≡ true
      → Step f s (record s { start = closing none })
  serve_fails :
      (s : State) (e : Err)
      → s.start ≡ serving
      → Step f s (record s { start = closing (f.report e) })
  start_ends :
      (s : State) (r : Option Err)
      → s.start ≡ closing r
      → s.watcher ≡ gone
      → Step f s (record s { start = start_returned r })
  stop_late :
      (s : State) (e : Err)
      → s.stop ≡ not_called
      → Step f s (record (close_all s) { stop = stop_returned (expired f e) })
  stop_begins : (s : State) → s.stop ≡ not_called → Step f s (record s { stop = waiting })
  stop_drained :
      (s : State)
      → s.stop ≡ waiting
      → s.once ≡ drained
      → Step f s (record s { stop = stop_returned none })
  stop_expires :
      (s : State) (e : Err)
      → s.stop ≡ waiting
      → Step f s (record (close_all s) { stop = forcing e })
  stop_forced :
      (s : State) (e : Err)
      → s.stop ≡ forcing e
      → s.once ≡ drained
      → Step f s (record s { stop = stop_returned (expired f e) })
  stop_again :
      (s : State) (r : Option Err)
      → s.stop ≡ stop_returned r
      → Step f s (record s { stop = not_called })

pub data Reach (f : Flavor) (s : State) : State → Type 0 where
  here : Reach f s s
  next : {t u : State} → Reach f s t → Step f t u → Reach f s u
