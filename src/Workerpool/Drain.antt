-- ===== src/Workerpool/Drain.antt =====
-- `WithDrainOnStop`: what `Start` promises when it returns, and that it can always get there.
use mathlib.Core.List.{Perm, perm_middle}
use mathlib.Core.List.Perm
use gokit_services.Common.{
  ℕ, zero, suc, ◌+◌, ◌*◌, ◌<◌, ◌≡◌, refl, sym, ap, subst, ◌∙◌, true, List, [], ◌∷◌, ◌++◌, arith,
  length, length-append, append-nil,
}
use gokit_services.Workerpool.{
  Pool, State, Step, start, send, hand, receive, complete, cancel, close, leave, return, Reach,
  here, next, init, AllExited, MayReturn, received, completed,
}
use gokit_services.Workerpool.Invariant.{Inv, init-Inv, Step-Inv}

-- Each task that was received is either finished or running, once.
abbrev pub IsKept : State → Type 0
IsKept s = Perm s.taken (s.finished ++ s.running)

append_one : (xs : List ℕ) (t : ℕ) → Perm (xs ++ t ∷ []) (t ∷ xs)
append_one xs t = subst (λ ys. Perm (xs ++ t ∷ []) (t ∷ ys)) (append-nil xs) (perm_middle xs [])

take_one : (xs ys zs : List ℕ) (t : ℕ) → Perm xs (ys ++ zs) → Perm (xs ++ t ∷ []) (ys ++ t ∷ zs)
take_one xs ys zs t p =
    Perm.trans (append_one xs t) (Perm.trans (Perm.cons t p) (Perm.symm (perm_middle ys zs)))

finish_one :
    (xs ys before after : List ℕ) (t : ℕ)
    → Perm xs (ys ++ (before ++ t ∷ after))
    → Perm xs (t ∷ (ys ++ (before ++ after)))
finish_one xs ys before after t p =
    Perm.trans p (
      Perm.trans (Perm.append_left ys (perm_middle before after))
        (perm_middle ys (before ++ after)))

Step-IsKept : {s t : State} → Step s t → IsKept s → IsKept t
Step-IsKept (start s h) k = k
Step-IsKept (send s t h l) k = k
Step-IsKept (hand s t n h q i) k = take_one s.taken s.finished s.running t k
Step-IsKept (receive s t rest n q i) k = take_one s.taken s.finished s.running t k
Step-IsKept (complete s before t after r) k =
    finish_one s.taken s.finished before after t (subst (λ l. Perm s.taken (s.finished ++ l)) r k)
Step-IsKept (cancel s) k = k
Step-IsKept (close s h c o) k = k
Step-IsKept (leave s n c q i) k = k
Step-IsKept (return s c r m) k = k

-- A draining `Start` has returned only if all workers have exited.
abbrev pub IsDrained : State → Type 0
IsDrained s = s.returned ≡ true → s.drain_on_stop ≡ true → AllExited s

Step-IsDrained : {s t : State} → Step s t → Inv s → IsDrained s → IsDrained t
Step-IsDrained (start s h) v d r o = ground (arith, v.returns r)
Step-IsDrained (send s t h l) v d r o = d r o
Step-IsDrained (hand s t n h q i) v d r o = ground (arith, v.returns r)
Step-IsDrained (receive s t rest n q i) v d r o = ground (arith, d r o)
Step-IsDrained (complete s before t after e) v d r o =
    ground (arith, d r o, ap length e, length-append before (t ∷ after))
Step-IsDrained (cancel s) v d r o = d r o
Step-IsDrained (close s h c o') v d r o = d r o
Step-IsDrained (leave s n c q i) v d r o = ground (arith, d r o)
Step-IsDrained (return s c r' m) v d r o = m o

Step-pool : {s t : State} → Step s t → t.pool ≡ s.pool
Step-pool (start s h) = refl
Step-pool (send s t h l) = refl
Step-pool (hand s t n h q i) = refl
Step-pool (receive s t rest n q i) = refl
Step-pool (complete s before t after e) = refl
Step-pool (cancel s) = refl
Step-pool (close s h c o) = refl
Step-pool (leave s n c q i) = refl
Step-pool (return s c r m) = refl

pub record Good (s : State) : Type 0 where
  pub inv : Inv s
  pub kept : IsKept s
  pub drained : IsDrained s

pub Reach-Good : {s t : State} → Good s → Reach s t → Good t
Reach-Good g here = g
Reach-Good g (next r st) =
    let h = Reach-Good g r in
    record {
      inv = Step-Inv st h.inv;
      kept = Step-IsKept st h.kept;
      drained = Step-IsDrained st h.inv h.drained;
    }

pub init-Good : (p : Pool) → Good (init p)
unfolding init
init-Good p = record { inv = init-Inv p; kept = Perm.nil; drained = λ r. cc }

Reach-pool : {s t : State} → Reach s t → t.pool ≡ s.pool
Reach-pool here = refl
Reach-pool (next r st) = Step-pool st ∙ Reach-pool r

init_pool : (p : Pool) → (init p).pool ≡ p
unfolding init
init_pool p = refl

-- With no worker left and nothing buffered, every accepted task is finished.
pub Good-finished :
    (s : State) → Good s → s.queue ≡ [] → s.running ≡ [] → Perm s.accepted s.finished
Good-finished s g q r =
    subst (λ l. Perm l s.finished)
      (sym (sym g.inv.fifo ∙ ap (λ l. s.taken ++ l) q ∙ append-nil s.taken))
      (subst (λ l. Perm s.taken l) (ap (λ l. s.finished ++ l) r ∙ append-nil s.finished) g.kept)

exited_size :
    (s : State) → Inv s → s.started ≡ true → s.idle ≡ 0 → s.running ≡ [] → s.exited ≡ s.size
exited_size s v c i r = ground (arith, v.counted, ap length r)

pub exited_queue :
    (s : State) {n : ℕ}
    → Inv s
    → s.started ≡ true
    → s.idle ≡ 0
    → s.running ≡ []
    → s.size ≡ n
    → 0 < n
    → s.queue ≡ []
exited_queue s v c i r e h = v.empties (omega (arith, exited_size s v c i r))

-- When `Start` of a draining pool with at least one worker has returned, the channel is empty, no
-- task runs, and the finished tasks are exactly the accepted ones, each once.
pub drained_all :
    (p : Pool) (s : State)
    → p.drain_on_stop ≡ true
    → 0 < p.size
    → Reach (init p) s
    → s.returned ≡ true
    → (s.queue ≡ []) × (s.running ≡ []) × Perm s.accepted s.finished
drained_all p s d n r e =
    let g = Reach-Good (init-Good p) r in
    let same : s.pool ≡ p = Reach-pool r ∙ init_pool p in
    let (i, run) = g.drained e (ap (λ (x : Pool). x.drain_on_stop) same ∙ d) in
    let q =
      exited_queue s g.inv (g.inv.closes (g.inv.returns e)).0 i run (ap (λ (x : Pool). x.size) same)
        n in
    (q, run, Good-finished s g q run)

Reach-cons : {s t u : State} → Step s t → Reach t u → Reach s u
Reach-cons st here = next here st
Reach-cons st (next r st') = next (Reach-cons st r) st'

-- A state that `s` reaches, where all workers have left and nothing is buffered.
record Drains (s : State) : Type 0 where
  final : State
  reaches : Reach s final
  exits : AllExited final
  empty : final.queue ≡ []
  closed : final.closed ≡ true

Drains-cons : {s t : State} → Step s t → Drains t → Drains s
Drains-cons st d = record {
  final = d.final;
  reaches = Reach-cons st d.reaches;
  exits = d.exits;
  empty = d.empty;
  closed = d.closed;
}

-- Bounds the steps that are left after the channel is closed.
abbrev work : State → ℕ
work s = 3 * length s.queue + 2 * length s.running + s.idle

-- A worker is there for the buffered tasks.
idle_pos :
    (s : State) (t : ℕ) (rest : List ℕ)
    → Inv s
    → s.closed ≡ true
    → 0 < s.size
    → s.running ≡ []
    → s.queue ≡ t ∷ rest
    → 0 < s.idle
idle_pos s t rest v c n r q = ground (arith, v.counted, v.closes c, v.empties)

drains :
    (k : ℕ) (s : State) (running queue : List ℕ) (idle : ℕ)
    → s.running ≡ running
    → s.queue ≡ queue
    → s.idle ≡ idle
    → work s < k
    → Inv s
    → s.closed ≡ true
    → 0 < s.size
    → Drains s
drains zero s r q i er eq ei h v c n = absurd (omega arith)
drains (suc k) s (t ∷ after) q i er eq ei h v c n = Drains-cons (complete s [] t after er) (
    drains k (completed s [] t after) after s.queue (suc s.idle) refl refl refl
      (omega (arith, ap length er)) (Step-Inv (complete s [] t after er) v) c n)
drains (suc k) s [] (t ∷ rest) zero er eq ei h v c n =
    absurd (omega (arith, idle_pos s t rest v c n er eq))
drains (suc k) s [] (t ∷ rest) (suc i) er eq ei h v c n = Drains-cons (receive s t rest i eq ei) (
    drains k (received s t rest i) (t ∷ s.running) rest i refl refl refl
      (omega (arith, ap length eq)) (Step-Inv (receive s t rest i eq ei) v) c n)
drains (suc k) s [] [] zero er eq ei h v c n = record {
  final = s;
  reaches = here;
  exits = (ei, er);
  empty = eq;
  closed = c;
}
drains (suc k) s [] [] (suc i) er eq ei h v c n = Drains-cons (leave s i c eq ei) (
    drains k (record s { idle = i; exited = suc s.exited }) s.running s.queue i refl refl refl
      (omega arith) (Step-Inv (leave s i c eq ei) v) c n)

-- Draining never gets stuck: from every reachable state with a closed channel and at least one
-- worker, there are steps to a state where every accepted task is finished, once, and where `Start`
-- may return.
pub can_drain :
    (p : Pool) (s : State)
    → 0 < p.size
    → Reach (init p) s
    → s.closed ≡ true
    → (u : State) × Reach s u × Perm u.accepted u.finished × MayReturn u
can_drain p s n r c =
    let g = Reach-Good (init-Good p) r in
    let same : s.pool ≡ p = Reach-pool r ∙ init_pool p in
    let big : 0 < s.size = subst (λ (x : Pool). 0 < x.size) (sym same) n in
    let d =
      drains (suc (work s)) s s.running s.queue s.idle refl refl refl (omega arith) g.inv c big in
    (
      d.final,
      d.reaches,
      Good-finished d.final (Reach-Good g d.reaches) d.empty d.exits.1,
      λ o. d.exits,
    )
