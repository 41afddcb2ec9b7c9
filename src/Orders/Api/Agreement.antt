-- ===== src/Orders/Api/Agreement.antt =====
-- example/orders-service/httpapi.go against grpcapi.go: the two transports give the same verdict.
use gokit_services.Common.{ℕ, String, ◌≡◌, Option, some}
use gokit_services.Common.Errors.{Err}
use gokit_services.Common.{arith}
use gokit_services.Orders.{Store}
use gokit_services.Orders.Api.{CreateRequest, Handled, HttpReply, GrpcReply, grpc_ok, grpc_error}
use gokit_services.Orders.Api.{invalid_argument, not_found, internal, handle_create, handle_get}
use gokit_services.Orders.Api.{handle_list, create_order, get_order, list_orders, get_error}
use gokit_services.Orders.Api.{grpc_get_error}

-- The HTTP status that says what a gRPC reply says.
abbrev pub status_of : {A : Type 0} → ℕ → GrpcReply A → ℕ
status_of success (grpc_ok x) = success
status_of success (grpc_error invalid_argument reason) = 400
status_of success (grpc_error not_found reason) = 404
status_of success (grpc_error internal reason) = 500

-- Both handlers leave the same state and enqueue the same orders, and the replies correspond.
abbrev pub Agree : {A S : Type 0} → ℕ → Handled HttpReply S → Handled (GrpcReply A) S → Type 0
Agree success h g =
    (h.state ≡ g.state) × (h.enqueued ≡ g.enqueued) × h.reply.status ≡ status_of success g.reply

module _ (submit : String → Option Err) {S : Type 0} (store : Store S) (format : ℕ → String) where
  -- A create request that decodes has the same effect over HTTP as over gRPC: the same state, the
  -- same order enqueued for processing or none, and 201 for success, 400 for an invalid argument
  -- and 500 for an internal error.
  pub create_agrees :
      (now : ℕ)
      → (req : CreateRequest) → (s : S)
      → Agree 201
          (handle_create submit store format now (some req) s)
          (create_order submit store now req s)
  unfolding handle_create create_order
  create_agrees now req s = ground arith

  -- Looking an order up has the same effect over HTTP as over gRPC: the same state, nothing
  -- enqueued, and 200 for success, 404 for a missing order and 500 for any other error.
  get_agrees :
      (now : ℕ)
      → (id : String) → (s : S)
      → Agree 200 (handle_get store format now id s) (get_order store now id s)
  unfolding handle_get get_order get_error grpc_get_error
  get_agrees now id s = ground arith

  -- Listing the orders has the same effect over HTTP as over gRPC: the same state, nothing enqueued,
  -- and 200 for success and 500 for an error.
  list_agrees :
      (now : ℕ) → (s : S) → Agree 200 (handle_list store format now s) (list_orders store now s)
  unfolding handle_list list_orders
  list_agrees now s = ground arith
