-- ===== src/Wiring/Unprepared.antt =====
-- What becomes of the program of example/orders-service when PostgreSQL does not come up in time.
use gokit_services.Common.{
  ℕ, zero, suc, ◌+◌, ◌≤◌, ◌≡◌, refl, ◌++◌, true, false, some, [], ◌∷◌, arith,
}
use gokit_services.Common.Errors.{wrap}
use gokit_services.Entrypoint as Entrypoint
use gokit_services.Entrypoint.{
  World, Hook, caller, Event, hooked, post_start, services_canceled, launch_all, run,
}
use gokit_services.Entrypoint.Lifecycle.{run_post_start_fails}
use gokit_services.Orders.Postgres.{Sql}
use gokit_services.Wiring.{PrepareWorld, await_pool, Readying, prepare}
use gokit_services.Wiring.Program.{Parts, services, entrypoint}

await_never :
    (w : PrepareWorld) (left n : ℕ)
    → ((k : ℕ) → k ≤ n + left → w.connected k ≡ false)
    → await_pool w left n ≡ some (wrap "waiting for postgres connection: %w" [] w.expired)
unfolding await_pool
await_never w zero n h = let off = h n (omega arith) in ground (arith, off)
await_never w (suc left) n h =
    let off = h n (omega arith) in
    let later = await_never w left (suc n) (λ k le. h k (omega (arith, le))) in
    ground (arith, off, later)

module _ {D J : Type 0} (sql : Sql D J) where
  -- The post-start hook of `main`.
  abbrev pub preparing : ℕ → PrepareWorld → Readying D → Hook
  preparing name w s = record { name = name; call = λ ctx. (prepare sql w true s).0 }

  unprepared :
      (w : PrepareWorld) (s : Readying D)
      → ((k : ℕ) → k ≤ w.rounds → w.connected k ≡ false)
      → (prepare sql w true s).0 ≡ some (wrap "waiting for postgres connection: %w" [] w.expired)
  unfolding prepare
  unprepared w s h =
      let never = await_never w w.rounds 0 (λ k le. h k (omega (arith, le))) in
      ground (arith, never)

  -- With PostgreSQL, if the pool is not there at any look before the bounded context is done, the
  -- program ends with the context's error, wrapped by `Prepare` and by `Run`: it has launched
  -- every service and called the hook, and it cancels the services' context without calling any
  -- `Stop`.
  pub program_unprepared :
      (world : World) (p : Parts) (name : ℕ) (w : PrepareWorld) (s : Readying D)
      → ((k : ℕ) → k ≤ w.rounds → w.connected k ≡ false)
      → run world (entrypoint (preparing name w s) p) ≡ (
        some (wrap "post-start: %w" [] (wrap "waiting for postgres connection: %w" [] w.expired)),
        launch_all (services p) ++ hooked post_start name caller ∷ services_canceled ∷ [],
      )
  unfolding entrypoint Entrypoint.new Entrypoint.apply_option Entrypoint.defaults
  program_unprepared world p name w s h =
      run_post_start_fails world (entrypoint (preparing name w s) p) [] (preparing name w s) []
        (wrap "waiting for postgres connection: %w" [] w.expired) tt refl tt (unprepared w s h)
