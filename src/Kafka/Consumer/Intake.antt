-- ===== src/Kafka/Consumer/Intake.antt =====
-- The runs of pkg/kafka/consumer/consumer.go between `Start` and its end: rounds of the fetch loop
-- and tasks of the pool in any order. The handlers' map does not change meanwhile, as `Handle` asks.
use gokit_services.Common.{
  ℕ, ◌+◌, ◌<◌, ◌++◌, ◌≡◌, refl, ◌⊎◌, inl, inr, String, str_eq, true, Option, none, some, List, [],
  ◌∷◌, All, All-append, arith, subst, sym, leb, ◌==◌, ◌&&◌, if◌then◌else◌, eq_iff,
}
use gokit_services.Common.Errors.{Err}
use gokit_services.Common.Assoc.{lookup}
use gokit_services.Kafka.Consumer.{Fetched, Message, to_message, Consumer}
use gokit_services.Kafka.Consumer.Working.{
  Work, idle, Fetch, fetched, fetch_failed, consume_step, dispatch, time_limit, routed, submitted,
  committed_unhandled, dispatched,
}

abbrev pub Handling : Type 0
Handling = ℕ → Option ℕ → Message → Option Err

-- A round of the loop while it runs, or a task that leaves the pool.
pub data Step (handle : Handling) (c : Consumer) : Work → Work → Type 0 where
  round :
      (s : Work) (f : Fetch) (commit submit : Option Err)
      → s.live ≡ true
      → Step handle c s (consume_step c.topics f commit submit s)
  task :
      (s : Work) (before after : List (ℕ × Fetched)) (h : ℕ) (m : Fetched) (commit : Option Err)
      → s.tasks ≡ before ++ (h, m) ∷ after
      → Step handle c s (dispatch handle c h m commit (record s { tasks = before ++ after }))

pub data Reach (handle : Handling) (c : Consumer) : Work → Work → Type 0 where
  here : (s : Work) → Reach handle c s s
  step : {s t u : Work} → Step handle c s t → Reach handle c t u → Reach handle c s u

module _ (handle : Handling) (c : Consumer) where
  -- The offset of the message may be committed: its topic has no handler, or the handler succeeded.
  abbrev pub MayCommit : Fetched → Type 0
  MayCommit m =
      (lookup m.topic c.topics ≡ none)
      ⊎ ((h : ℕ) × (lookup m.topic c.topics ≡ some h)
          × (handle h (time_limit c) (to_message m) ≡ none))

  abbrev pub IsRouted : ℕ × Fetched → Type 0
  IsRouted (h, m) = lookup m.topic c.topics ≡ some h

  abbrev pub Inv : Work → Type 0
  Inv s = All MayCommit s.committed × All IsRouted s.tasks

  All-split :
      (xs ys : List (ℕ × Fetched)) (x : ℕ × Fetched)
      → All IsRouted (xs ++ x ∷ ys)
      → IsRouted x × All IsRouted (xs ++ ys)
  All-split [] ys x a = a
  All-split (z ∷ xs) ys x (a, b) = let (p, q) = All-split xs ys x b in (p, (a, q))

  routed-Inv :
      (o : Option ℕ) (m : Fetched) (commit submit : Option Err) (s : Work)
      → lookup m.topic c.topics ≡ o
      → Inv s
      → Inv (routed o m commit submit s)
  unfolding routed committed_unhandled submitted
  routed-Inv none m none submit s e (a, b) =
      (All-append MayCommit s.committed (m ∷ []) a (inl e, tt), b)
  routed-Inv none m (some x) submit s e i = i
  routed-Inv (some h) m commit none s e (a, b) =
      (a, All-append IsRouted s.tasks ((h, m) ∷ []) b (e, tt))
  routed-Inv (some h) m commit (some x) s e i = i

  dispatched-Inv :
      (h : ℕ) (m : Fetched) (r commit : Option Err) (s : Work)
      → lookup m.topic c.topics ≡ some h
      → handle h (time_limit c) (to_message m) ≡ r
      → Inv s
      → Inv (dispatched m r commit s)
  unfolding dispatched
  dispatched-Inv h m (some x) commit s e k i = i
  dispatched-Inv h m none (some x) s e k i = i
  dispatched-Inv h m none none s e k (a, b) =
      (All-append MayCommit s.committed (m ∷ []) a (inr (h, e, k), tt), b)

  Step-Inv : {s t : Work} → Step handle c s t → Inv s → Inv t
  unfolding consume_step dispatch
  Step-Inv (round s (fetched m) commit submit l) i =
      routed-Inv (lookup m.topic c.topics) m commit submit s refl i
  Step-Inv (round s (fetch_failed e w) commit submit l) i = ground arith
  Step-Inv (task s before after h m commit e) (a, b) =
      let (r, rest) = All-split before after (h, m) (subst (All IsRouted) e b) in
      dispatched-Inv h m (handle h (time_limit c) (to_message m)) commit _ r refl (a, rest)

  Reach-Inv : {s t : Work} → Reach handle c s t → Inv s → Inv t
  Reach-Inv (here s) i = i
  Reach-Inv (step st r) i = Reach-Inv r (Step-Inv st i)

-- In every order of fetching and handling: an offset is committed only for a message whose topic has
-- no handler or whose handler returned nil.
pub commit_needs_success :
    (handle : Handling) (c : Consumer) (s : Work)
    → Reach handle c idle s
    → All (MayCommit handle c) s.committed
unfolding idle
commit_needs_success handle c s r = (Reach-Inv handle c r (tt, tt)).0

-- Where the group reads on in a partition, as Kafka documents it: behind the highest committed offset.
abbrev pub position : String → ℕ → List Fetched → ℕ
position topic partition [] = 0
position topic partition (x ∷ xs) =
    let rest = position topic partition xs in
    if str_eq x.topic topic && (x.partition == partition && leb rest x.offset)
    then x.offset + 1
    else rest

module _ (handle : Handling) (c : Consumer) (h : ℕ) (m : Fetched) where
  pub submit_step :
      (s : Work)
      → lookup m.topic c.topics ≡ some h
      → s.live ≡ true
      → Step handle c s (record s { tasks = s.tasks ++ (h, m) ∷ [] })
  unfolding consume_step routed submitted
  submit_step s e l =
      subst (λ o. Step handle c s (routed o m none none s)) e (round s (fetched m) none none l)

  fail_step :
      (s : Work) (rest : List (ℕ × Fetched)) (e : Err)
      → s.tasks ≡ (h, m) ∷ rest
      → handle h (time_limit c) (to_message m) ≡ some e
      → Step handle c s (record s {
        tasks = rest;
        durations = s.durations ++ m.topic ∷ [];
        errors = s.errors ++ m.topic ∷ [];
        failed = s.failed ++ m ∷ [];
      })
  unfolding dispatch dispatched
  fail_step s rest e t f =
      subst
        (λ o. Step handle c s (
          dispatched m o none (record s { tasks = rest; durations = s.durations ++ m.topic ∷ [] })))
        f (task s [] rest h m none t)

  pub succeed_step :
      (s : Work) (rest : List (ℕ × Fetched))
      → s.tasks ≡ (h, m) ∷ rest
      → handle h (time_limit c) (to_message m) ≡ none
      → Step handle c s (record s {
        tasks = rest;
        durations = s.durations ++ m.topic ∷ [];
        committed = s.committed ++ m ∷ [];
        consumed = s.consumed ++ m.topic ∷ [];
      })
  unfolding dispatch dispatched
  succeed_step s rest t f =
      subst
        (λ o. Step handle c s (
          dispatched m o none (record s { tasks = rest; durations = s.durations ++ m.topic ∷ [] })))
        f (task s [] rest h m none t)

-- A later commit passes over a failed message: whenever the handler fails for one message of a
-- partition and succeeds for a later one, a run exists at whose end no task is left, the failed
-- message is not committed, and yet the group's position in the partition is behind it.
pub failed_passed_over :
    (handle : Handling) (c : Consumer) (h : ℕ) (m n : Fetched) (e : Err)
    → lookup m.topic c.topics ≡ some h
    → n.topic ≡ m.topic
    → n.partition ≡ m.partition
    → m.offset < n.offset
    → handle h (time_limit c) (to_message m) ≡ some e
    → handle h (time_limit c) (to_message n) ≡ none
    → (s : Work) × Reach handle c idle s
      × (s.tasks ≡ [])
      × (s.failed ≡ m ∷ [])
      × (s.committed ≡ n ∷ [])
      × (m.offset < position m.topic m.partition s.committed)
unfolding idle
failed_passed_over handle c h m n e lm t p o fm fn =
    let ln = subst (λ x. lookup x c.topics ≡ some h) (sym t) lm in
    (
      _,
      step (submit_step handle c h m idle lm refl) (
          step (submit_step handle c h n _ ln refl) (
            step (fail_step handle c h m _ ((h, n) ∷ []) e refl fm)
              (step (succeed_step handle c h n _ [] refl fn) (here _)))),
      refl,
      refl,
      refl,
      ground (arith, eq_iff n.topic m.topic, t, p, o),
    )
