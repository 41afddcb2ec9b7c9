-- ===== src/Dashboard/Pages.antt =====
-- example/orders-service/dashboard.go as a handler: its routes, what it reads through the REST API's
-- client, and what it writes. A template is a parameter: the sizes of the pieces that executing it
-- writes.
use gokit_services.Common.{ℕ, String, Option, Bool, List, [], ◌∷◌, map}
use gokit_services.Common.Errors.{Err, Result}
use gokit_services.Dashboard.Forms.{HealthView, health_partial}
use gokit_services.Http.Server.{Action, sets_type, writes}
use gokit_services.Http.Client.{Request, Response, Done, do_request}
use gokit_services.Orders.Api.{OrderResponse, ProtoOrder}
use gokit_services.Dashboard.{
  Strings, OrdersPanel, orders_partial, grpc_orders_partial, StatsView, stats_partial,
}

pub data Endpoint : Type 0 where
  static_endpoint index_endpoint stats_endpoint orders_endpoint create_endpoint : Endpoint
  grpc_endpoint health_endpoint : Endpoint

unfoldable pub mux : List (String × Endpoint)
mux =
    ("GET /static/", static_endpoint)
    ∷ ("GET /{$}", index_endpoint)
    ∷ ("GET /partials/stats", stats_endpoint)
    ∷ ("GET /partials/orders", orders_endpoint)
    ∷ ("POST /partials/orders", create_endpoint)
    ∷ ("GET /partials/grpc-orders", grpc_endpoint)
    ∷ ("GET /partials/health", health_endpoint)
    ∷ []

-- `execute` of the template; an error after some pieces is logged only.
unfoldable pub render : {V : Type 0} → (V → List ℕ) → V → List Action
render execute view = sets_type "text/html; charset=utf-8" ∷ map writes (execute view)

unfoldable pub handle_index : List ℕ → List Action
unfolding render
handle_index pieces = render (λ v. pieces) tt

-- The client of the REST API: decoding of a list, and net/http.
pub record Client : Type 0 where
  pub decode : String → Result (List OrderResponse)
  pub status_text : ℕ → String
  pub create : String → String → Result Request
  pub canonical : String → String
  pub send : Request → Result Response

-- The deadline of three seconds is the transport's: it answers or fails by then.
unfoldable pub fetch_orders : Client → Done (List OrderResponse)
fetch_orders c = do_request c.decode [] c.status_text c.create c.canonical c.send "GET" "/orders" []

unfoldable pub handle_orders_partial :
    (OrdersPanel → List ℕ) → Strings → (String → Option ℕ) → ℕ → Client → List Action
unfolding render fetch_orders
handle_orders_partial execute st parse now c =
    render execute (orders_partial st parse now (fetch_orders c).result)

unfoldable pub handle_grpc_orders_partial :
    (OrdersPanel → List ℕ)
    → Strings
    → (ℕ → String)
    → ℕ
    → Bool
    → Result (List ProtoOrder)
    → List Action
unfolding render
handle_grpc_orders_partial execute st format now connected listed =
    render execute (grpc_orders_partial st format now connected listed)

-- `live` and `ready` are what the two requests to the health server return.
unfoldable pub handle_health_partial :
    (HealthView → List ℕ) → (Err → String) → Result String → Result String → List Action
unfolding render health_partial
handle_health_partial execute text_of live ready =
    render execute (health_partial text_of live ready)

-- `list` and `failed` are what `fetchOrders` returns.
unfoldable pub handle_stats_partial :
    (StatsView → List ℕ) → Strings → List OrderResponse → Option Err → List Action
unfolding render stats_partial
handle_stats_partial execute st list failed = render execute (stats_partial st (list, failed))
