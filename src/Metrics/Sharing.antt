-- ===== src/Metrics/Sharing.antt =====
-- What instances get that share a registry, for the `initMetrics` of the services.
use gokit_services.Common.{
  ℕ, ◌+◌, ◌≡◌, refl, ap, ◌∙◌, sym, inl, inr, true, Bool-cases, Option-cases, subst, Option, none,
  some, List, [], ◌∷◌, arith,
}
use gokit_services.Metrics.{Registered, registered, already, refused, settled, register_or_reuse}
use gokit_services.Metrics.Registration.{
  Kind, counter_vec, gauge_vec, histogram_vec, Desc, Metric, Collector, same_kind, cast_as,
  with_first, continued, made, init_metrics,
}

-- What `Register` of Prometheus documents: a new collector is kept; one that describes itself as
-- one that is there is refused with the one that is there, and changes nothing; none is dropped.
pub record IsRegistry {R : Type 0} (register : Collector → R → Registered Collector × R)
    : Type 0 where
  pub known : R → Desc → Option Collector
  pub registers :
      (c : Collector) (r : R)
      → (register c r).0 ≡ registered
      → known (register c r).1 c.metric.desc ≡ some c
  pub reuses :
      (c e : Collector) (r : R)
      → (register c r).0 ≡ already e
      → known (register c r).1 c.metric.desc ≡ some e
  pub repeats :
      (c e : Collector) (r : R) → known r c.metric.desc ≡ some e → register c r ≡ (already e, r)
  pub keeps :
      (c e : Collector) (r : R) (d : Desc) → known r d ≡ some e → known (register c r).1 d ≡ some e

same_kind_refl : (k : Kind) → same_kind k k ≡ true
same_kind_refl counter_vec = refl
same_kind_refl gauge_vec = refl
same_kind_refl (histogram_vec bs) = refl

module _ {R : Type 0} (register : Collector → R → Registered Collector × R)
    (law : IsRegistry register) where
  abbrev IsHeld : R → Metric → Collector → Type 0
  IsHeld r m c = (law.known r m.desc ≡ some c) × (same_kind m.kind c.metric.kind ≡ true)

  abbrev AllHeld : R → List Metric → List Collector → Type 0
  AllHeld r [] [] = Unit
  AllHeld r (m ∷ ms) (c ∷ cs) = IsHeld r m c × AllHeld r ms cs
  AllHeld r _ _ = ⊥

  settled-IsHeld :
      (n : ℕ) (m : Metric) (r : R) (x : Collector) (a : Registered Collector)
      → let c : Collector = record { id = n; metric = m } in
        (register c r).0 ≡ a
        → (settled (cast_as m.kind) c a (register c r).1).0 ≡ some x
        → IsHeld (settled (cast_as m.kind) c a (register c r).1).1 m x
  unfolding settled
  settled-IsHeld n m r x registered h k =
      let c : Collector = record { id = n; metric = m } in
      let same : c ≡ x = ground (arith, k) in
      (
        law.registers c r h ∙ ap some same,
        ap (λ y. same_kind m.kind y.metric.kind) (sym same) ∙ same_kind_refl m.kind,
      )
  settled-IsHeld n m r x (already e) h k =
      let c : Collector = record { id = n; metric = m } in
      elim (Bool-cases (same_kind m.kind e.metric.kind)) [
        | inl t ↦
            let same : e ≡ x = ground (arith, t, k) in
            (
              law.reuses c e r h ∙ ap some same,
              ap (λ y. same_kind m.kind y.metric.kind) (sym same) ∙ t,
            )
        | inr f ↦ absurd (ground (arith, f, k))
      ]
  settled-IsHeld n m r x (refused e) h k = absurd (ground (arith, k))

  made-IsHeld :
      (n : ℕ) (m : Metric) (r : R) (x : Collector)
      → (made register n m r).0 ≡ some x
      → IsHeld (made register n m r).1 m x
  unfolding register_or_reuse
  made-IsHeld n m r x h =
      settled-IsHeld n m r x (register (record { id = n; metric = m }) r).0 refl h

  settled_state :
      (f : Collector → Option Collector) (c : Collector) (a : Registered Collector) (r : R)
      → (settled f c a r).1 ≡ r
  unfolding settled
  settled_state f c registered r = refl
  settled_state f c (already e) r = refl
  settled_state f c (refused e) r = refl

  made_keeps :
      (n : ℕ) (m : Metric) (r : R) (d : Desc) (e : Collector)
      → law.known r d ≡ some e
      → law.known (made register n m r).1 d ≡ some e
  unfolding register_or_reuse
  made_keeps n m r d e h =
      let c : Collector = record { id = n; metric = m } in
      ap (λ s. law.known s d) (settled_state (cast_as m.kind) c (register c r).0 (register c r).1)
      ∙ law.keeps c e r d h

  continued_state :
      (o : Option Collector) (s : R) (rest : Option (List Collector) × R) (d : Desc) (e : Collector)
      → law.known s d ≡ some e
      → law.known rest.1 d ≡ some e
      → law.known (continued o s rest).1 d ≡ some e
  continued_state none s rest d e h k = h
  continued_state (some c) s rest d e h k = k

  init_keeps :
      (n : ℕ) (ms : List Metric) (r : R) (d : Desc) (e : Collector)
      → law.known r d ≡ some e
      → law.known (init_metrics register n ms r).1 d ≡ some e
  unfolding init_metrics
  init_keeps n [] r d e h = h
  init_keeps n (m ∷ ms) r d e h =
      let k = made_keeps n m r d e h in
      continued_state (made register n m r).0 (made register n m r).1 _ d e k
        (init_keeps (n + 1) ms (made register n m r).1 d e k)

  continued-AllHeld :
      (m : Metric) (ms : List Metric) (s : R) (o : Option Collector)
      (rest : Option (List Collector) × R) (cs : List Collector)
      → ((x : Collector) → o ≡ some x → IsHeld rest.1 m x)
      → ((xs : List Collector) → rest.0 ≡ some xs → AllHeld rest.1 ms xs)
      → (continued o s rest).0 ≡ some cs
      → AllHeld (continued o s rest).1 (m ∷ ms) cs
  continued-AllHeld m ms s none rest cs first later h = absurd (ground (arith, h))
  continued-AllHeld m ms s (some x) rest cs first later h = elim (Option-cases rest.0) [
    | inl e ↦ absurd (ground (arith, e, h))
    | inr (xs, e) ↦
        let same : x ∷ xs ≡ cs = ground (arith, e, h) in
        subst (AllHeld rest.1 (m ∷ ms)) same (first x refl, later xs e)
  ]

  init-AllHeld :
      (n : ℕ) (ms : List Metric) (r : R) (cs : List Collector)
      → (init_metrics register n ms r).0 ≡ some cs
      → AllHeld (init_metrics register n ms r).1 ms cs
  unfolding init_metrics
  init-AllHeld n [] r [] h = tt
  init-AllHeld n [] r (c ∷ cs) h = absurd (ground (arith, h))
  init-AllHeld n (m ∷ ms) r cs h =
      let (o, s) = made register n m r in
      continued-AllHeld m ms s o (init_metrics register (n + 1) ms s) cs
        (λ x e.
          let (there, kind) = made-IsHeld n m r x e in
          (init_keeps (n + 1) ms s m.desc x there, kind))
        (λ xs e. init-AllHeld (n + 1) ms s xs e) h

  made_again :
      (n : ℕ) (m : Metric) (r : R) (c : Collector)
      → law.known r m.desc ≡ some c
      → same_kind m.kind c.metric.kind ≡ true
      → made register n m r ≡ (some c, r)
  unfolding register_or_reuse settled
  made_again n m r c there kind =
      let fresh : Collector = record { id = n; metric = m } in
      let kept : cast_as m.kind c ≡ some c = ground (arith, kind) in
      ap (λ p. settled (cast_as m.kind) fresh p.0 p.1) (law.repeats fresh c r there)
      ∙ ap (λ o. (o, r)) kept

  -- A second instance on a registry that holds the metrics.
  held_again :
      (n : ℕ) (ms : List Metric) (r : R) (cs : List Collector)
      → AllHeld r ms cs
      → init_metrics register n ms r ≡ (some cs, r)
  unfolding init_metrics
  held_again n [] r [] h = refl
  held_again n [] r (c ∷ cs) h = elim h [ ]
  held_again n (m ∷ ms) r [] h = elim h [ ]
  held_again n (m ∷ ms) r (c ∷ cs) ((there, kind), rest) =
      ap (λ p. continued p.0 p.1 (init_metrics register (n + 1) ms p.1))
        (made_again n m r c there kind)
      ∙ ap (λ q. (with_first c q.0, q.1)) (held_again (n + 1) ms r cs rest)

  -- Instances of a service share their metrics, on a registry that does what Prometheus documents:
  -- where the metrics of one were registered without a panic, any later instance on the same
  -- registry gets the very same collectors, does not panic, and leaves the registry as it is.
  pub metrics_shared :
      (n k : ℕ) (ms : List Metric) (r : R) (cs : List Collector)
      → (init_metrics register n ms r).0 ≡ some cs
      → let s = (init_metrics register n ms r).1 in init_metrics register k ms s ≡ (some cs, s)
  metrics_shared n k ms r cs h =
      held_again k ms (init_metrics register n ms r).1 cs (init-AllHeld n ms r cs h)
