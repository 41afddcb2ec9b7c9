-- ===== src/Graceful/Stopping.antt =====
-- What `Stop` promises: nil only after every request was answered, and an end whatever the requests do.
use gokit_services.Common.{
  ◌+◌, ◌≡◌, ◌⊎◌, Bool-cases, inl, inr, Bool, true, false, none, some, arith,
}
use gokit_services.Graceful.{
  Flavor, Once, unused, draining, drained, StartPlace, not_started, serving, closing,
  start_returned, Watcher, unborn, watching, stopping, gone, StopPlace, not_called, waiting,
  forcing, stop_returned, State, init, Step, listens, accepts, accepts_late, answers, hijacks,
  ctx_done, quits, shuts, drains, watcher_ends, serve_closed, serve_fails, start_ends, stop_late,
  stop_begins, stop_drained, stop_expires, stop_forced, stop_again, Reach, here, next,
}

-- Whether `Stop` has closed connections, and whether it waits for the rest after that.
abbrev cuts : StopPlace → Bool
cuts not_called = false
cuts waiting = false
cuts (forcing e) = true
cuts (stop_returned none) = false
cuts (stop_returned (some e)) = true

abbrev begun : Once → Bool
begun unused = false
begun draining = true
begun drained = true

abbrev is_born : Watcher → Bool
is_born unborn = false
is_born watching = true
is_born stopping = true
is_born gone = true

abbrev pub is_started : StartPlace → Bool
is_started not_started = false
is_started serving = true
is_started (closing r) = true
is_started (start_returned r) = true

record Inv (s : State) : Type 0 where
  shut : begun s.once ≡ true → s.closed ≡ true
  empty : s.once ≡ drained → s.inflight ≡ 0
  dead : s.forced ≡ true → (s.closed ≡ true) × (s.inflight ≡ 0)
  known : cuts s.stop ≡ true → s.forced ≡ true
  whole : s.forced ≡ false → s.cut ≡ 0
  ended : s.stop ≡ stop_returned none → s.once ≡ drained
  born : is_started s.start ≡ true → is_born s.watcher ≡ true
  counted : s.accepted ≡ s.served + s.cut + s.taken + s.inflight

module _ (f : Flavor) where
  Step-Inv : {s t : State} → Step f s t → Inv s → Inv t
  Step-Inv (listens s h) v = ground arith
  Step-Inv (accepts s h c) v = ground arith
  Step-Inv (accepts_late s o h) v = ground arith
  Step-Inv (answers s n e) v = ground arith
  Step-Inv (hijacks s n m e) v = ground arith
  Step-Inv (ctx_done s h) v = ground arith
  Step-Inv (quits s r h c) v = ground arith
  Step-Inv (shuts s h o) v = ground arith
  Step-Inv (drains s o e) v = ground arith
  Step-Inv (watcher_ends s h o) v = ground arith
  Step-Inv (serve_closed s h c) v = ground arith
  Step-Inv (serve_fails s e h) v = ground arith
  Step-Inv (start_ends s r h w) v = ground arith
  Step-Inv (stop_late s e h) v = ground arith
  Step-Inv (stop_begins s h) v = ground arith
  Step-Inv (stop_drained s h o) v = ground arith
  Step-Inv (stop_expires s e h) v = ground arith
  Step-Inv (stop_forced s e h o) v = ground arith
  Step-Inv (stop_again s r h) v = ground arith

  Reach-Inv : {s t : State} → Inv s → Reach f s t → Inv t
  Reach-Inv v here = v
  Reach-Inv v (next r st) = Step-Inv st (Reach-Inv v r)

  init-Inv : Inv init
  init-Inv = ground arith

  -- When a call of `Stop` has returned nil, the listener is closed and no request is in flight: every
  -- request that began was answered, lost its connection to a call of `Stop`, or had it taken over by
  -- its handler; and if no call has closed the connections, none was lost.
  pub stop_nil_drained :
      (s : State)
      → Reach f init s
      → s.stop ≡ stop_returned none
      → (s.closed ≡ true)
        × (s.inflight ≡ 0)
        × (s.accepted ≡ s.served + s.cut + s.taken)
        × ((s.forced ≡ true) ⊎ ((s.accepted ≡ s.served + s.taken) × (s.cut ≡ 0)))
  stop_nil_drained s r e =
      let v = Reach-Inv init-Inv r in
      (
        ground arith,
        ground arith,
        ground arith,
        elim (Bool-cases s.forced) [
          | inl h ↦ inl h
          | inr h ↦ inr (omega (arith, v.counted, v.whole h, v.empty (v.ended e)), v.whole h)
        ],
      )

  -- No request ended and none lost its connection.
  abbrev Spared : State → State → Type 0
  Spared s u = (u.served ≡ s.served) × (u.cut ≡ s.cut)
