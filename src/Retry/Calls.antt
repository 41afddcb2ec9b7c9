-- ===== src/Retry/Calls.antt =====
-- How often the retry loop calls `connect`, and what it returns.
use gokit_services.Common.{
  ℕ, zero, suc, ◌+◌, ◌-◌, ◌≤◌, ◌<◌, ◌≡◌, refl, none, some, [], ◌∷◌, arith, length,
}
use gokit_services.Common.Errors.{Err, wrap, num, ok, err}
use gokit_services.Retry.{World, Config, next_backoff, loop, do_retry, attempts}

-- Attempts `a` to `a + n - 1` fail, and the timer fires after each of them.
abbrev pub FailsFor {ℓ} : {A : Type ℓ} → World A → ℕ → ℕ → Type ℓ
FailsFor w a zero = Unit
FailsFor w a (suc n) =
    ((e : Err) × (w.connect a ≡ err e)) × (w.done a ≡ none) × FailsFor w (a + 1) n

module _ {ℓ} {A : Type ℓ} (w : World A) (cfg : Config) where
  loop_first_success :
      (left n a k backoff : ℕ) (v : A)
      → n ≤ left
      → k ≡ a + n
      → FailsFor w a n
      → w.connect k ≡ ok v
      → ((loop w cfg left a backoff).outcome ≡ ok v) × ((loop w cfg left a backoff).calls ≡ k)
  unfolding loop
  loop_first_success zero zero a k backoff v h e f s = ground arith
  loop_first_success (suc left) zero a k backoff v h e f s = ground arith
  loop_first_success zero (suc n) a k backoff v h e f s = absurd (omega arith)
  loop_first_success (suc left) (suc n) a k backoff v h e ((x, p), d, f) s = ground (
    arith,
    loop_first_success left n (a + 1) k (next_backoff w cfg backoff) v (omega arith) (omega arith) f
        s,
  )

  loop_stopped :
      (left n a k backoff : ℕ) (x c : Err)
      → n < left
      → k ≡ a + n
      → FailsFor w a n
      → w.connect k ≡ err x
      → w.done k ≡ some c
      → ((loop w cfg left a backoff).outcome
          ≡ err (wrap "retry: context canceled after %d attempts: %w" (num k ∷ []) c))
        × ((loop w cfg left a backoff).calls ≡ k)
  unfolding loop
  loop_stopped zero n a k backoff x c h e f s d = absurd (omega arith)
  loop_stopped (suc left) zero a k backoff x c h e f s d = ground arith
  loop_stopped (suc left) (suc n) a k backoff x c h e ((y, p), q, f) s d = ground (
    arith,
    loop_stopped left n (a + 1) k (next_backoff w cfg backoff) x c (omega arith) (omega arith) f s
        d,
  )

  loop_exhausted :
      (left a k backoff : ℕ) (x : Err)
      → k ≡ a + left
      → FailsFor w a left
      → w.connect k ≡ err x
      → ((loop w cfg left a backoff).outcome
          ≡ err (wrap "retry: failed after %d attempts: %w" (num k ∷ []) x))
        × ((loop w cfg left a backoff).calls ≡ k)
        × (length (loop w cfg left a backoff).waits ≡ left)
  unfolding loop
  loop_exhausted zero a k backoff x e f s = ground arith
  loop_exhausted (suc left) a k backoff x e ((y, p), q, f) s =
      ground (arith, loop_exhausted left (a + 1) k (next_backoff w cfg backoff) x (omega arith) f s)

  loop_calls :
      (left a backoff : ℕ)
      → (a ≤ (loop w cfg left a backoff).calls) × ((loop w cfg left a backoff).calls ≤ a + left)
  unfolding loop
  loop_calls zero a backoff = ground arith
  loop_calls (suc left) a backoff =
      ground (arith, loop_calls left (a + 1) (next_backoff w cfg backoff))

  -- `MaxAttempts <= 0` counts as one attempt.
  attempts_pos : 1 ≤ attempts cfg
  attempts_pos = ground arith

  -- On every run `connect` is called at least once, and at most `MaxAttempts` times (once where
  -- `MaxAttempts` is zero or less).
  pub do_retry_calls : (1 ≤ (do_retry w cfg).calls) × ((do_retry w cfg).calls ≤ attempts cfg)
  unfolding do_retry
  do_retry_calls = omega (arith, loop_calls (attempts cfg - 1) 1 cfg.backoff_min, attempts_pos)

  loop_last :
      (left a backoff : ℕ) (v : A)
      → (loop w cfg left a backoff).outcome ≡ ok v
      → w.connect (loop w cfg left a backoff).calls ≡ ok v
  unfolding loop
  loop_last zero a backoff v h = ground (arith, h)
  loop_last (suc left) a backoff v h =
      ground (arith, h, loop_last left (a + 1) (next_backoff w cfg backoff) v)

  -- A value that is returned is what the last call of `connect` gave.
  pub do_retry_last :
      (v : A) → (do_retry w cfg).outcome ≡ ok v → w.connect (do_retry w cfg).calls ≡ ok v
  unfolding do_retry
  do_retry_last v h = loop_last (attempts cfg - 1) 1 cfg.backoff_min v h

  -- If the first n attempts fail, the context is not done in the n waits, and the attempt after
  -- them is allowed and succeeds with `v`, then the result is `v` after exactly n + 1 calls.
  pub do_retry_first_success :
      (n : ℕ) (v : A)
      → n < attempts cfg
      → FailsFor w 1 n
      → w.connect (1 + n) ≡ ok v
      → ((do_retry w cfg).outcome ≡ ok v) × ((do_retry w cfg).calls ≡ 1 + n)
  unfolding do_retry
  do_retry_first_success n v h f s =
      loop_first_success (attempts cfg - 1) n 1 (1 + n) cfg.backoff_min v (omega arith) refl f s

  -- If the context is done in the wait after attempt n + 1, which was not the last one allowed,
  -- with n failures and uninterrupted waits before, the result is the context's error, wrapped with
  -- the number of attempts, and `connect` is not called again.
  do_retry_canceled :
      (n : ℕ) (x c : Err)
      → n + 1 < attempts cfg
      → FailsFor w 1 n
      → w.connect (1 + n) ≡ err x
      → w.done (1 + n) ≡ some c
      → ((do_retry w cfg).outcome
          ≡ err (wrap "retry: context canceled after %d attempts: %w" (num (1 + n) ∷ []) c))
        × ((do_retry w cfg).calls ≡ 1 + n)
  unfolding do_retry
  do_retry_canceled n x c h f s d =
      loop_stopped (attempts cfg - 1) n 1 (1 + n) cfg.backoff_min x c (omega arith) refl f s d

  -- If every allowed attempt fails and the context is never done, the result wraps the error of the
  -- last attempt, all attempts are used, and there is one wait between each two attempts and none
  -- after the last.
  pub do_retry_exhausted :
      (x : Err)
      → FailsFor w 1 (attempts cfg - 1)
      → w.connect (attempts cfg) ≡ err x
      → ((do_retry w cfg).outcome
          ≡ err (wrap "retry: failed after %d attempts: %w" (num (attempts cfg) ∷ []) x))
        × ((do_retry w cfg).calls ≡ attempts cfg)
        × (length (do_retry w cfg).waits + 1 ≡ attempts cfg)
  unfolding do_retry
  do_retry_exhausted x f s =
      let k : attempts cfg ≡ 1 + (attempts cfg - 1) = omega (arith, attempts_pos) in
      let (o, c, l) = loop_exhausted (attempts cfg - 1) 1 (attempts cfg) cfg.backoff_min x k f s in
      (o, c, omega (arith, l, k))
