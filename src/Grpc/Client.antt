-- ===== src/Grpc/Client.antt =====
-- pkg/grpc/client/client.go: a connection that `Start` makes and `Stop` closes.
use mathlib.Core.List.{foldl}
use gokit_services.Common.{
  ℕ, ◌≡◌, refl, ◌∷◌, ◌↔◌, ◌++◌, String, Option, none, some, List, [], arith,
}
use gokit_services.Common.Errors.{Err, Result, ok, err, wrap, wrap_some}

pub record Client : Type 0 where
  pub target : String
  pub dial_opts : List ℕ
  pub conn : Option ℕ
  pub logger : ℕ

pub data ClientOption : Type 0 where
  with_dial_options : List ℕ → ClientOption
  with_logger : ℕ → ClientOption

unfoldable pub apply_option : Client → ClientOption → Client
apply_option c (with_dial_options opts) = record c { dial_opts = c.dial_opts ++ opts }
apply_option c (with_logger l) = record c { logger = l }

unfoldable pub new_client : String → List ClientOption → Client
unfolding apply_option
new_client target =
    foldl apply_option (record { target = target; dial_opts = []; conn = none; logger = 0 })

-- `Start`, until the context is done: `dial` is `grpclib.NewClient`.
unfoldable pub start : (String → List ℕ → Result ℕ) → Client → Option Err × Client
start dial c = elim (dial c.target c.dial_opts) [
  | ok conn ↦ (none, record c { conn = some conn })
  | err e ↦ (some (wrap "grpc client: %w" [] e), c)
]

-- Which branch the select of `Stop` takes: the connection's `Close` has returned, or the context is
-- done.
pub data Ending : Type 0 where
  close_returned : Option Err → Ending
  ctx_ended : Err → Ending

unfoldable pub stop : (ℕ → Ending) → Client → Option Err
stop ending c = elim c.conn [
  | none ↦ none
  | some conn ↦ elim (ending conn) [
    | close_returned r ↦ wrap_some "grpc client close: %w" r
    | ctx_ended e ↦ some (wrap "grpc client close: %w" [] e)
  ]
]

options-conn : (c : Client) (opts : List ClientOption) → (foldl apply_option c opts).conn ≡ c.conn
unfolding apply_option
options-conn c [] = refl
options-conn c (with_dial_options more ∷ opts) = options-conn _ opts
options-conn c (with_logger l ∷ opts) = options-conn _ opts

-- A new client has nothing to close: `Stop` returns nil. After a `Start` that connected, `Stop` returns
-- nil exactly if closing the connection returned nil before the context was done.
start_then_stop :
    (dial : String → List ℕ → Result ℕ) (ending : ℕ → Ending) (target : String)
    (opts : List ClientOption) (conn : ℕ)
    → let c = new_client target opts in
      dial c.target c.dial_opts ≡ ok conn
      → (stop ending c ≡ none)
        × ((start dial c).0 ≡ none)
        × (stop ending ((start dial c).1) ≡ none ↔ ending conn ≡ close_returned none)
unfolding new_client start stop
start_then_stop dial ending target opts conn h =
    let c = new_client target opts in
    let bare =
      options-conn (record { target = target; dial_opts = []; conn = none; logger = 0 }) opts in
    (ground (arith, bare), ground (arith, h), ground (arith, h))
