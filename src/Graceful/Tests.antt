-- ===== src/Graceful/Tests.antt =====
-- The theorems on Graceful at concrete runs.
use gokit_services.Common.{◌+◌, ◌≡◌, ◌⊎◌, refl, inl, inr, true, [], none, some}
use gokit_services.Common.Errors.{wrap}
use gokit_services.Graceful.{
  Flavor, State, init, serving, watching, waiting, drained, stop_returned, listens, accepts,
  answers, shuts, drains, stop_begins, stop_drained, Reach, here, next,
}
use gokit_services.Graceful.Stopping.{stop_nil_drained}

abbrev plain : Flavor
plain = record {
  stop_format = "stop: %w";
  report = λ e. some (wrap "serving: %w" [] e);
  may_hijack = true;
}

-- A server with one request in flight that `Stop` waits for.
abbrev busy : State
busy = record init {
  start = serving;
  watcher = watching;
  stop = waiting;
  inflight = 1;
  accepted = 1;
}

busy-Reach : Reach plain init busy
busy-Reach = next (next (next here (listens init refl)) (accepts _ refl refl)) (stop_begins _ refl)

-- The request is answered, and `Stop` returns.
abbrev rested : State
rested = record busy {
  stop = stop_returned none;
  once = drained;
  closed = true;
  inflight = 0;
  served = 1;
}

rested-Reach : Reach plain init rested
rested-Reach =
    next
      (next (next (next busy-Reach (answers busy 0 refl)) (shuts _ (inr (inl refl)) refl))
        (drains _ refl refl))
      (stop_drained _ refl refl)

stop_nil_drained_example :
    (rested.closed ≡ true)
    × (rested.inflight ≡ 0)
    × (rested.accepted ≡ rested.served + rested.cut + rested.taken)
    × ((rested.forced ≡ true)
        ⊎ ((rested.accepted ≡ rested.served + rested.taken) × (rested.cut ≡ 0)))
stop_nil_drained_example = stop_nil_drained plain rested rested-Reach refl
