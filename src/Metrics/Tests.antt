-- ===== src/Metrics/Tests.antt =====
-- Two producers on one registry, which is a list of collectors.
use gokit_services.Common.{
  ℕ, ◌+◌, ◌≡◌, refl, ap, ◌∙◌, inl, inr, String, str_eq, eq_iff, eq_refl, Bool-cases, Option, none,
  some, List, [], ◌∷◌, arith, if◌then◌else◌,
}
use gokit_services.Metrics.{Registered, registered, already, refused}
use gokit_services.Metrics
use gokit_services.Metrics.Registration.{Metric, Collector, init_metrics, producer_metrics}
use gokit_services.Metrics.Sharing.{IsRegistry, metrics_shared}

abbrev named : String → List Collector → Option Collector
named s [] = none
named s (c ∷ r) = if str_eq c.metric.desc.name s then some c else named s r

abbrev enter : Option Collector → Collector → List Collector → Registered Collector × List Collector
enter none c r = (registered, c ∷ r)
enter (some e) c r = (already e, r)

abbrev register : Collector → List Collector → Registered Collector × List Collector
register c r = enter (named c.metric.desc.name r) c r

registers :
    (o : Option Collector) (c : Collector) (r : List Collector)
    → (enter o c r).0 ≡ registered
    → named c.metric.desc.name (enter o c r).1 ≡ some c
registers none c r h = ground (arith, eq_refl c.metric.desc.name)
registers (some e) c r h = absurd (ground (arith, h))

reuses :
    (o : Option Collector) (c e : Collector) (r : List Collector)
    → named c.metric.desc.name r ≡ o
    → (enter o c r).0 ≡ already e
    → named c.metric.desc.name (enter o c r).1 ≡ some e
reuses none c e r l h = absurd (ground (arith, h))
reuses (some x) c e r l h = l ∙ ap some (ground (arith, h))

keeps :
    (o : Option Collector) (c e : Collector) (r : List Collector) (s : String)
    → named c.metric.desc.name r ≡ o
    → named s r ≡ some e
    → named s (enter o c r).1 ≡ some e
keeps (some x) c e r s l h = h
keeps none c e r s l h = elim (Bool-cases (str_eq c.metric.desc.name s)) [
  | inl t ↦ cc (ap (λ n. named n r) ((eq_iff c.metric.desc.name s).0 t), l, h)
  | inr f ↦ ground (arith, f, h)
]

list-IsRegistry : IsRegistry register
list-IsRegistry = record {
  known = λ r d. named d.name r;
  registers = λ c r h. registers (named c.metric.desc.name r) c r h;
  reuses = λ c e r h. reuses (named c.metric.desc.name r) c e r refl h;
  repeats = λ c e r h. ap (λ o. enter o c r) h;
  keeps = λ c e r d h. keeps (named c.metric.desc.name r) c e r d.name refl h;
}

abbrev first : Option (List Collector) × List Collector
first = init_metrics register 10 producer_metrics []

abbrev numbered : ℕ → List Metric → List Collector
numbered n [] = []
numbered n (m ∷ ms) = record { id = n; metric = m } ∷ numbered (n + 1) ms

metrics_shared_example :
    init_metrics register 20 producer_metrics first.1
    ≡ (some (numbered 10 producer_metrics), first.1)
unfolding init_metrics producer_metrics Metrics.register_or_reuse Metrics.settled
metrics_shared_example =
    metrics_shared register list-IsRegistry 10 20 producer_metrics [] (numbered 10 producer_metrics)
      refl
