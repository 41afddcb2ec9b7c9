-- ===== src/Backends.antt =====
-- pkg/dbservice/service.go and pkg/redisservice/service.go: two connections that are opened by the
-- retry loop, probed, and closed once. The drivers are parameters; a pool or client is known by a
-- number.
pub mod Db
pub mod Redis
pub mod Connected
use gokit_services.Common.{ℕ, String, Option, none, some}
use gokit_services.Common.Errors.{Err, Result, ok, err}
use gokit_services.Retry

-- What the driver answers in one run of `Start`: the options that the DSN holds, known by a number,
-- what attempt number n creates from the options `O`, and what a ping of it in that attempt says.
-- `close` is what closing returns; `done` and `scale` belong to the retry loop.
pub record Driver (O R : Type 0) : Type 0 where
  pub parse : String → Result ℕ
  pub create : O → ℕ → R
  pub ping : ℕ → ℕ → Option Err
  pub close : ℕ → Option Err
  pub done : ℕ → Option Err
  pub scale : ℕ → ℕ

-- The retry loop over a connection attempt.
abbrev pub retrying : {O R : Type 0} → Driver O R → (ℕ → Result ℕ) → Retry.World ℕ
retrying d connect = record { connect = connect; done = d.done; scale = d.scale }
