-- ===== src/Orders/Api/Serving.antt =====
-- example/orders-service/httpapi.go on the server of pkg/http/server: the routes, the limit on the body
-- of a request, and what the handlers write. Bytes are numbers.
use gokit_services.Common.{
  ℕ, zero, suc, ◌≡◌, String, Bool, false, Option, none, some, List, [], ◌∷◌, length, ltb, arith,
}
use gokit_services.Common.Errors.{Err, Result, ok, err}
use gokit_services.Http.Server.{
  Action, sets_type, writes_header, writes, act, set_type, write_header, write, wire_write_header,
  wire_write, is_informational, fresh_writer, recovered, serve, final_status, ResponseWriter,
}
use gokit_services.Http.Server as Server
use gokit_services.Orders.{Store}
use gokit_services.Orders.Api.{
  Body, CreateRequest, HttpReply, Handled, handle_create, handle_get, handle_list,
}

pub data Endpoint : Type 0 where
  create_endpoint list_endpoint get_endpoint : Endpoint

unfoldable pub mux : List (String × Endpoint)
mux =
    ("POST /orders", create_endpoint)
    ∷ ("GET /orders", list_endpoint)
    ∷ ("GET /orders/{id}", get_endpoint)
    ∷ []

pub record ApiRequest : Type 0 where
  pub http_method : String
  pub path : String
  pub body : List ℕ

abbrev pub max_create_body_bytes : ℕ
max_create_body_bytes = 65536

abbrev pub take : {A : Type 0} → List A → ℕ → List A
take [] n = []
take (x ∷ xs) zero = []
take (x ∷ xs) (suc n) = x ∷ take xs n

-- What `http.MaxBytesReader` lets through of a body, and whether it then gives an error.
unfoldable pub limited : List ℕ → List ℕ × Bool
limited body = (take body max_create_body_bytes, ltb max_create_body_bytes (length body))

-- `matches` is the matching of `http.ServeMux`, by pattern, method and path: the value of `{id}` if
-- there is a match. No two of the patterns match the same request. `decode` reads the first JSON
-- value from a reader that gives the bytes, and then an error or the end.
module _ (matches : String → String → String → Option String)
    (decode : List ℕ → Bool → Option CreateRequest) (submit : String → Option Err) {S : Type 0}
    (store : Store S) (format : ℕ → String) where
  unfoldable pub handled : Endpoint → String → ℕ → ApiRequest → S → Handled HttpReply S
  unfolding limited
  handled create_endpoint id now req s =
      let (bytes, broken) = limited req.body in
      handle_create submit store format now (decode bytes broken) s
  handled list_endpoint id now req s = handle_list store format now s
  handled get_endpoint id now req s = handle_get store format now id s

  -- `none` is a request that the mux answers itself.
  unfoldable pub dispatch :
      List (String × Endpoint) → ℕ → ApiRequest → S → Option (Handled HttpReply S)
  unfolding handled
  dispatch [] now req s = none
  dispatch ((pattern, endpoint) ∷ routes) now req s =
      elim (matches pattern req.http_method req.path) [
        | none ↦ dispatch routes now req s
        | some id ↦ some (handled endpoint id now req s)
      ]

-- `writeJSON`, by the encoded value: the header, the status, and the text, which the encoder writes at
-- once or, if it fails, not at all. `size` is the number of bytes of a text.
unfoldable pub written : (String → ℕ) → ℕ → Result String → List Action
written size status (err e) = sets_type "application/json" ∷ writes_header status ∷ []
written size status (ok text) =
    sets_type "application/json" ∷ writes_header status ∷ writes (size text) ∷ []

unfoldable pub write_json : (Body → Result String) → (String → ℕ) → HttpReply → List Action
unfolding written
write_json encode size reply = written size reply.status (encode reply.body)

-- A reply with a final status arrives as it was made.
pub written-sent :
    (size : String → ℕ) (n : ℕ) (req : Server.Request) (status : ℕ) (r : Result String)
    → is_informational status ≡ false
    → let w = serve n req (record { actions = written size status r; panics = false }) in
      (final_status w.wire ≡ status)
      × (w.wire.sent_type ≡ some "application/json")
      × (w.status_code ≡ status)
unfolding serve act write_header write wire_write wire_write_header recovered written
written-sent size n req status (err e) h = ground (arith, h)
written-sent size n req status (ok text) h = ground (arith, h)
