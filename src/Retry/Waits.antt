-- ===== src/Retry/Waits.antt =====
-- The waits between the attempts.
use gokit_services.Common.{
  ℕ, zero, suc, ◌+◌, ◌-◌, ◌*◌, ◌/◌, ◌^◌, ◌≤◌, ◌<◌, ◌≡◌, refl, min, inl, inr, List, [], ◌∷◌, arith,
  All, Option-cases,
}
use gokit_services.Common.Errors.{Err, err, Result-cases}
use gokit_services.Retry.{World, Config, next_backoff, loop, do_retry, attempts}

-- Each wait is the one before it times 1.5, rounded down, and at most `cap`.
abbrev pub Grows : ℕ → List ℕ → Type 0
Grows cap [] = Unit
Grows cap (x ∷ []) = Unit
Grows cap (x ∷ y ∷ ys) = (y ≡ min (x * 3 / 2) cap) × Grows cap (y ∷ ys)

-- The list is empty or begins with the number.
abbrev pub StartsWith : ℕ → List ℕ → Type 0
StartsWith b [] = Unit
StartsWith b (x ∷ xs) = x ≡ b

-- What float64 arithmetic gives on durations whose triple has at most 53 bits (over 34 days).
abbrev pub IsExact : (ℕ → ℕ) → Type 0
IsExact scale = (b : ℕ) → b * 3 < 2 ^ 53 → scale b ≡ b * 3 / 2

Grows-cons :
    (cap x : ℕ) (ys : List ℕ)
    → StartsWith (min (x * 3 / 2) cap) ys
    → Grows cap ys
    → Grows cap (x ∷ ys)
Grows-cons cap x [] s g = tt
Grows-cons cap x (y ∷ ys) s g = (s, g)

module _ {ℓ} {A : Type ℓ} (w : World A) (cfg : Config) where
  -- After a failed attempt that was not the last, the waits are none, or this one and the rest.
  loop_waits {κ} :
      (P : List ℕ → Type κ) (left a b : ℕ)
      → P []
      → P (b ∷ [])
      → P (b ∷ (loop w cfg left (a + 1) (next_backoff w cfg b)).waits)
      → P (loop w cfg (suc left) a b).waits
  unfolding loop
  loop_waits P left a b p q r = elim (Result-cases (w.connect a)) [
    | inl (v, e) ↦ rw (e, loop) p
    | inr (x, e) ↦ elim (Option-cases (w.done a)) [
      | inl d ↦ rw (e, loop) (rw d r)
      | inr (c, d) ↦ rw (e, loop) (rw d q)
    ]
  ]

  next_backoff-le : (b : ℕ) → next_backoff w cfg b ≤ cfg.backoff_max
  unfolding next_backoff
  next_backoff-le b = omega arith

  next_backoff_exact :
      (b : ℕ)
      → IsExact w.scale
      → b * 3 < 2 ^ 53
      → next_backoff w cfg b ≡ min (b * 3 / 2) cfg.backoff_max
  unfolding next_backoff
  next_backoff_exact b x h = rw (x b h)

  loop_starts : (left a b : ℕ) → StartsWith b (loop w cfg left a b).waits
  unfolding loop
  loop_starts zero a b = ground arith
  loop_starts (suc left) a b = loop_waits (StartsWith b) left a b tt refl refl

  loop-Grows :
      (left a b : ℕ)
      → IsExact w.scale
      → b * 3 < 2 ^ 53
      → cfg.backoff_max * 3 < 2 ^ 53
      → Grows cfg.backoff_max (loop w cfg left a b).waits
  unfolding loop
  loop-Grows zero a b x h m = ground arith
  loop-Grows (suc left) a b x h m = loop_waits (Grows cfg.backoff_max) left a b tt tt (
      Grows-cons cfg.backoff_max b _
        (rw (← next_backoff_exact b x h) (loop_starts left (a + 1) (next_backoff w cfg b)))
        (loop-Grows left (a + 1) (next_backoff w cfg b) x (omega (arith, next_backoff-le b)) m))

  loop_capped :
      (left a b cap : ℕ)
      → b ≤ cap
      → cfg.backoff_max ≤ cap
      → All (λ d. d ≤ cap) (loop w cfg left a b).waits
  unfolding loop
  loop_capped zero a b cap h m = ground arith
  loop_capped (suc left) a b cap h m =
      loop_waits (All (λ d. d ≤ cap)) left a b tt (h, tt)
        (
          h,
          loop_capped left (a + 1) (next_backoff w cfg b) cap (omega (arith, next_backoff-le b)) m,
        )

  loop_first_wait :
      (left a b : ℕ) (x : Err)
      → cfg.backoff_max < b
      → w.connect a ≡ err x
      → ¬ All (λ d. d ≤ cfg.backoff_max) (loop w cfg (suc left) a b).waits
  unfolding loop
  loop_first_wait left a b x h e = elim (Option-cases (w.done a)) [
    | inl d ↦ rw (e, loop) (rw d (λ all. absurd (omega (arith, all.0))))
    | inr (c, d) ↦ rw (e, loop) (rw d (λ all. absurd (omega (arith, all.0))))
  ]

  -- Where the durations are small enough for float64 to be exact, the waits follow the backoff rule:
  -- the first is `BackoffMin`, and each later one is the one before it times 1.5, rounded down and
  -- at most `BackoffMax`.
  pub do_retry_backoff :
      IsExact w.scale
      → cfg.backoff_min * 3 < 2 ^ 53
      → cfg.backoff_max * 3 < 2 ^ 53
      → StartsWith cfg.backoff_min (do_retry w cfg).waits
        × Grows cfg.backoff_max (do_retry w cfg).waits
  unfolding do_retry
  do_retry_backoff x h m = (loop_starts _ 1 cfg.backoff_min, loop-Grows _ 1 cfg.backoff_min x h m)

  -- Whatever the float multiplication gives, no wait is longer than the larger of the two bounds.
  do_retry_capped :
      (cap : ℕ)
      → cfg.backoff_min ≤ cap
      → cfg.backoff_max ≤ cap
      → All (λ d. d ≤ cap) (do_retry w cfg).waits
  unfolding do_retry
  do_retry_capped cap h m = loop_capped _ 1 cfg.backoff_min cap h m

  -- With `BackoffMin` above `BackoffMax`, a first failure that may be retried is followed by a wait
  -- longer than `BackoffMax`.
  first_wait_uncapped :
      (x : Err)
      → cfg.backoff_max < cfg.backoff_min
      → 1 < attempts cfg
      → w.connect 1 ≡ err x
      → ¬ All (λ d. d ≤ cfg.backoff_max) (do_retry w cfg).waits
  unfolding do_retry
  first_wait_uncapped x h m e all =
      let k : attempts cfg - 1 ≡ suc (attempts cfg - 2) = omega arith in
      loop_first_wait (attempts cfg - 2) 1 cfg.backoff_min x h e (rw k at all)
