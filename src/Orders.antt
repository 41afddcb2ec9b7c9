-- ===== src/Orders.antt =====
-- example/orders-service/order.go: the order domain, and the `Store` interface that its transports
-- and decorators use. Times are numbers (nanoseconds). Operations of a store thread its state.
pub mod Validation
pub mod Memory
pub mod Publishing
pub mod Caching
pub mod Jobs
pub mod Api
pub mod Postgres
pub mod Shop
pub mod Slot
pub mod Asking
mod Tests
mod LayerTests
use gokit_services.Common.{ℕ, String, Bool, Option, List}
use gokit_services.Common.Errors.{Result}
use gokit_services.Common.Int.{ℤ}

-- A `Status` is a string: the three that the code names, and any other that a database may hold.
pub data Status : Type 0 where
  pending confirmed canceled : Status
  other : String → Status

pub record Item : Type 0 where
  pub sku : String
  pub quantity : ℤ  -- int32

pub record Order : Type 0 where
  pub id : String
  pub customer_id : String
  pub items : List Item
  pub status : Status
  pub created_at : ℕ
  pub updated_at : ℕ

-- The repository contract over a state `S`. The first number of an operation is what `time.Now()`
-- gives in it.
pub record Store (S : Type 0) : Type 0 where
  pub create : ℕ → String → List Item → S → Result Order × S
  pub get : ℕ → String → S → Result Order × S
  pub list : ℕ → S → Result (List Order) × S
  pub confirm_pending : ℕ → String → S → Result Bool × S
  pub cancel_stale_pending : ℕ → ℕ → S → Result (List String) × S
