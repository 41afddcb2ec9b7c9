-- ===== src/Wiring/Preparing.antt =====
-- When `Prepare` of serverkit/backends.go succeeds, and what a `WaitReady` that returns nil means.
use mathlib.Core.List.{foldl}
use gokit_services.Common.{
  ℕ, zero, suc, ◌+◌, ◌≤◌, ◌≡◌, ◌↔◌, ◌⊎◌, inl, inr, ◌++◌, subst, true, Bool-cases, none, List, ◌∷◌,
  arith,
}
use gokit_services.Orders.Postgres.{Sql, ensure_schema}
use gokit_services.Wiring.{PrepareWorld, await_pool, Readying, prepare_schema, prepare}

-- The pool is there at one of the looks from number n on.
abbrev pub ConnectsWithin : PrepareWorld → ℕ → ℕ → Type 0
ConnectsWithin w left n = (k : ℕ) × (n ≤ k) × (k ≤ n + left) × (w.connected k ≡ true)

await-Connects :
    (w : PrepareWorld) (left n : ℕ) → await_pool w left n ≡ none → ConnectsWithin w left n
unfolding await_pool
await-Connects w zero n h = (n, omega arith, omega arith, ground (arith, h))
await-Connects w (suc left) n h = elim (Bool-cases (w.connected n)) [
  | inl b ↦ (n, omega arith, omega arith, b)
  | inr b ↦
      let (k, lo, hi, c) = await-Connects w left (suc n) (ground (arith, b, h)) in
      (k, omega (arith, lo), omega (arith, hi), c)
]

Connects-await :
    (w : PrepareWorld) (left n : ℕ) → ConnectsWithin w left n → await_pool w left n ≡ none
unfolding await_pool
Connects-await w zero n (k, lo, hi, c) =
    let same : k ≡ n = omega (arith, lo, hi) in
    ground (arith, subst (λ j. w.connected j ≡ true) same c)
Connects-await w (suc left) n (k, lo, hi, c) = elim (Bool-cases (w.connected n)) [
  | inl b ↦ ground (arith, b)
  | inr b ↦
      let past : suc n ≤ k = grind arith in
      let later = Connects-await w left (suc n) (k, past, omega (arith, hi), c) in
      ground (arith, b, later)
]

module _ {D J : Type 0} (sql : Sql D J) where
  prepare_parts :
      (w : PrepareWorld) (s : Readying D)
      → let r = prepare sql w true s in
        (r.0 ≡ none → (await_pool w w.rounds 0 ≡ none) × ((ensure_schema sql s.database).0 ≡ none))
        × ((await_pool w w.rounds 0 ≡ none → (ensure_schema sql s.database).0 ≡ none → r.0 ≡ none)
            × (r.1.ready ≡ true ↔ (s.ready ≡ true) ⊎ (r.0 ≡ none)))
  unfolding prepare prepare_schema
  prepare_parts w s = (
    λ h. (ground (arith, h), ground (arith, h)),
    (λ a b. ground (arith, a, b), (λ h. ground (arith, h), λ h. ground (arith, h))),
  )

  -- With PostgreSQL, `Prepare` returns nil exactly if the pool was there at one of its looks before the
  -- bounded context was done and the schema could be made; the channel is closed afterwards exactly if
  -- it was closed before or this call returned nil.
  prepare_exact :
      (w : PrepareWorld) (s : Readying D)
      → let r = prepare sql w true s in
        (r.0 ≡ none ↔ (ConnectsWithin w w.rounds 0 × ((ensure_schema sql s.database).0 ≡ none)))
        × (r.1.ready ≡ true ↔ (s.ready ≡ true) ⊎ (r.0 ≡ none))
  prepare_exact w s =
      let (parts, (whole, shut)) = prepare_parts w s in
      (
        (
          λ h. let (a, b) = parts h in (await-Connects w w.rounds 0 a, b),
          λ (c, b). whole (Connects-await w w.rounds 0 c) b,
        ),
        shut,
      )

  -- The state after calls of `Prepare`, one after another.
  abbrev pub prepares : List PrepareWorld → Readying D → Readying D
  prepares ws s = foldl (λ t w. (prepare sql w true t).1) s ws

  -- One of the calls returned nil: it saw the pool, and made the schema in the database that it found,
  -- which was connected.
  abbrev Made : List PrepareWorld → Readying D → Type 0
  Made ws s =
      (before : List PrepareWorld) × (w : PrepareWorld) × (after : List PrepareWorld) × (ws
        ≡ before ++ w ∷ after)
      × ((prepare sql w true (prepares before s)).0 ≡ none)
      × ConnectsWithin w w.rounds 0
      × ((ensure_schema sql (prepares before s).database).0 ≡ none)
      × (sql.connected (prepares before s).database ≡ true)
