-- ===== src/Periodic/Tests.antt =====
-- A callback that runs at the start, is called by a tick, and runs on while the loop ends.
use gokit_services.Common.{◌≤◌, refl, true, false}
use gokit_services.Periodic.{
  Service, State, waiting, call_first, first_returns, ticks, cancels, stops, Reach, here, next,
  init, tick,
}
use gokit_services.Periodic.Overlap.{one_at_a_time}

abbrev minutely : Service
minutely = record {
  interval = 60;
  callback = 1;
  overlapping = false;
  immediate_start = true;
  logger = 0;
}

abbrev calling : State
calling = record {
  service = minutely;
  place = waiting;
  ctx_done = true;
  busy = true;
  running = 1;
  leaving = 0;
  begun = 2;
  ended = 1;
  skipped = 1;
}

ends_while_calling : Reach (init minutely) calling
unfolding init tick
ends_while_calling =
    next
      (next
        (next
          (next
            (next (next here (call_first (init minutely) refl refl)) (first_returns _ 0 refl refl))
            (ticks _ refl))
          (ticks _ refl))
        (cancels _))
      (stops _ refl refl)

one_at_a_time_example : calling.running ≤ 1
one_at_a_time_example = one_at_a_time minutely calling ends_while_calling refl
