-- ===== src/Workerpool/Tests.antt =====
-- One worker, a buffer of two, and three tasks: the second and third wait while the first runs, and
-- all are done before `Start` returns.
use mathlib.Core.List.{Perm}
use gokit_services.Common.{◌≤◌, ◌≡◌, refl, true, [], ◌++◌, arith, length}
use gokit_services.Workerpool.{
  Pool, State, start, send, hand, receive, complete, cancel, close, leave, return, Reach, here,
  next, init, launched, sent, handed, received, completed, MayReturn,
}
use gokit_services.Workerpool.Invariant.{reachable}
use gokit_services.Workerpool.Drain.{drained_all, can_drain}

abbrev draining : Pool
draining = record { size = 1; queue_size = 2; drain_on_stop = true; logger = 0 }

abbrev running_one : State
running_one = handed (launched (init draining)) 10 0

abbrev buffered_one : State
buffered_one = sent running_one 20

abbrev shutting : State
shutting = record (record buffered_one { ctx_done = true }) { closed = true }

abbrev one_left : State
one_left = completed shutting [] 10 []

abbrev last_running : State
last_running = received one_left 20 [] 0

abbrev emptied : State
emptied = completed last_running [] 20 []

abbrev workerless : State
workerless = record emptied { idle = 0; exited = 1 }

abbrev ended : State
ended = record workerless { returned = true }

buffering : Reach (init draining) buffered_one
unfolding init
buffering =
    next (next (next here (start (init draining) refl)) (hand _ 10 0 refl refl refl))
      (send running_one 20 refl (omega arith))

shuts : Reach (init draining) shutting
unfolding init
shuts = next (next buffering (cancel buffered_one)) (close _ refl refl refl)

exits : Reach (init draining) workerless
unfolding init
exits =
    next
      (next
        (next (next shuts (complete shutting [] 10 [] refl)) (receive one_left 20 [] 0 refl refl))
        (complete last_running [] 20 [] refl))
      (leave emptied 0 refl refl refl)

ends : Reach (init draining) ended
unfolding init
ends = next exits (return workerless refl refl (λ d. (refl, refl)))

reachable_example :
    (length buffered_one.queue ≤ 2)
    × (length buffered_one.running ≤ 1)
    × (buffered_one.taken ++ buffered_one.queue ≡ buffered_one.accepted)
unfolding init
reachable_example = reachable draining buffered_one buffering

drained_all_example : (ended.queue ≡ []) × (ended.running ≡ []) × Perm ended.accepted ended.finished
unfolding init
drained_all_example = drained_all draining ended refl (omega arith) ends refl

can_drain_example : (u : State) × Reach shutting u × Perm u.accepted u.finished × MayReturn u
unfolding init
can_drain_example = can_drain draining shutting (omega arith) shuts refl
