-- ===== src/Orders/Api.antt =====
-- example/orders-service/httpapi.go and grpcapi.go: two transports over one store. Decoding of the
-- request and printing of times are parameters; a handler returns the reply, the new state, and the
-- ids that it enqueued for processing.
pub mod Agreement
pub mod Serving
use gokit_services.Common.{
  ℕ, ◌/◌, String, Bool, true, false, Option, none, some, List, [], ◌∷◌, map,
}
use gokit_services.Common.Errors.{Err, Result, ok, err, wrap, errors_is, is_order_not_found}
use gokit_services.Orders.{Order, Item, Status, pending, confirmed, canceled, other, Store}
use gokit_services.Orders.Jobs.{enqueue}
use gokit_services.Orders.Validation.{validate_new_order}

pub record CreateRequest : Type 0 where
  pub customer_id : String
  pub items : List Item

pub record OrderResponse : Type 0 where
  pub id : String
  pub customer_id : String
  pub status : String
  pub items : List Item
  pub created_at : String
  pub updated_at : String

-- `string(o.Status)`
abbrev pub status_text : Status → String
status_text pending = "PENDING"
status_text confirmed = "CONFIRMED"
status_text canceled = "CANCELED"
status_text (other s) = s

-- `format` is `Time.Format(time.RFC3339)`.
unfoldable pub to_response : (ℕ → String) → Order → OrderResponse
to_response format o = record {
  id = o.id;
  customer_id = o.customer_id;
  status = status_text o.status;
  items = o.items;
  created_at = format o.created_at;
  updated_at = format o.updated_at;
}

pub data Body : Type 0 where
  error_body : String → Body
  order_body : OrderResponse → Body
  orders_body : List OrderResponse → Body

pub record HttpReply : Type 0 where
  pub status : ℕ
  pub body : Body

abbrev http_error : ℕ → String → HttpReply
http_error status message = record { status = status; body = error_body message }

pub record Handled (R S : Type 0) : Type 0 where
  pub reply : R
  pub state : S
  pub enqueued : List String

pub data ProtoStatus : Type 0 where
  unspecified proto_pending proto_confirmed proto_canceled : ProtoStatus

pub record ProtoOrder : Type 0 where
  pub id : String
  pub customer_id : String
  pub items : List Item
  pub status : ProtoStatus
  pub created_at_unix : ℕ
  pub updated_at_unix : ℕ

unfoldable pub to_proto_status : Status → ProtoStatus
to_proto_status pending = proto_pending
to_proto_status confirmed = proto_confirmed
to_proto_status canceled = proto_canceled
to_proto_status (other s) = unspecified

unfoldable pub to_proto : Order → ProtoOrder
unfolding to_proto_status
to_proto o = record {
  id = o.id;
  customer_id = o.customer_id;
  items = o.items;
  status = to_proto_status o.status;
  created_at_unix = o.created_at / 1_000_000_000;
  updated_at_unix = o.updated_at / 1_000_000_000;
}

pub data Code : Type 0 where
  invalid_argument not_found internal : Code

pub data GrpcReply (A : Type 0) : Type 0 where
  grpc_ok : A → GrpcReply A
  grpc_error : Code → String → GrpcReply A

-- The order that is enqueued: `Enqueue` can fail, which is only logged. `submit` is what the pool's
-- `Submit` returns for the task of an order.
unfoldable pub queued : (String → Option Err) → String → List String
queued submit id = elim (enqueue id (submit id)) [ none ↦ id ∷ [] | some e ↦ [] ]

module _ (submit : String → Option Err) {S : Type 0} (store : Store S) (format : ℕ → String) where
  -- `none` is a body that does not decode, or is too large.
  unfoldable pub handle_create : ℕ → Option CreateRequest → S → Handled HttpReply S
  unfolding to_response queued
  handle_create now none s = record {
    reply = http_error 400 "invalid request body";
    state = s;
    enqueued = [];
  }
  handle_create now (some req) s = elim (validate_new_order req.customer_id req.items) [
    | some reason ↦ record { reply = http_error 400 reason; state = s; enqueued = [] }
    | none ↦
        let (r, s') = store.create now req.customer_id req.items s in
        elim r [
          | err e ↦ record { reply = http_error 500 "internal error"; state = s'; enqueued = [] }
          | ok o ↦ record {
            reply = record { status = 201; body = order_body (to_response format o) };
            state = s';
            enqueued = queued submit o.id;
          }
        ]
  ]

module _ {S : Type 0} (store : Store S) (format : ℕ → String) where
  get_error : Err → HttpReply
  get_error e = elim (errors_is is_order_not_found e) [
    | true ↦ http_error 404 "order not found"
    | false ↦ http_error 500 "internal error"
  ]

  unfoldable pub handle_get : ℕ → String → S → Handled HttpReply S
  unfolding to_response get_error
  handle_get now id s =
      let (r, s') = store.get now id s in
      elim r [
        | err e ↦ record { reply = get_error e; state = s'; enqueued = [] }
        | ok o ↦ record {
          reply = record { status = 200; body = order_body (to_response format o) };
          state = s';
          enqueued = [];
        }
      ]

  unfoldable pub handle_list : ℕ → S → Handled HttpReply S
  unfolding to_response
  handle_list now s =
      let (r, s') = store.list now s in
      elim r [
        | err e ↦ record { reply = http_error 500 "internal error"; state = s'; enqueued = [] }
        | ok os ↦ record {
          reply = record { status = 200; body = orders_body (map (to_response format) os) };
          state = s';
          enqueued = [];
        }
      ]

module _ (submit : String → Option Err) {S : Type 0} (store : Store S) where
  unfoldable pub create_order : ℕ → CreateRequest → S → Handled (GrpcReply ProtoOrder) S
  unfolding to_proto queued
  create_order now req s = elim (validate_new_order req.customer_id req.items) [
    | some reason ↦ record { reply = grpc_error invalid_argument reason; state = s; enqueued = [] }
    | none ↦
        let (r, s') = store.create now req.customer_id req.items s in
        elim r [
          | err e ↦ record {
            reply = grpc_error internal "internal error";
            state = s';
            enqueued = [];
          }
          | ok o ↦ record {
            reply = grpc_ok (to_proto o);
            state = s';
            enqueued = queued submit o.id;
          }
        ]
  ]

module _ {S : Type 0} (store : Store S) where
  grpc_get_error : Err → GrpcReply ProtoOrder
  grpc_get_error e = elim (errors_is is_order_not_found e) [
    | true ↦ grpc_error not_found "order not found"
    | false ↦ grpc_error internal "internal error"
  ]

  unfoldable pub get_order : ℕ → String → S → Handled (GrpcReply ProtoOrder) S
  unfolding to_proto grpc_get_error
  get_order now id s =
      let (r, s') = store.get now id s in
      elim r [
        | err e ↦ record { reply = grpc_get_error e; state = s'; enqueued = [] }
        | ok o ↦ record { reply = grpc_ok (to_proto o); state = s'; enqueued = [] }
      ]

  unfoldable pub list_orders : ℕ → S → Handled (GrpcReply (List ProtoOrder)) S
  unfolding to_proto
  list_orders now s =
      let (r, s') = store.list now s in
      elim r [
        | err e ↦ record { reply = grpc_error internal "internal error"; state = s'; enqueued = [] }
        | ok os ↦ record { reply = grpc_ok (map to_proto os); state = s'; enqueued = [] }
      ]
