-- ===== src/Dashboard/Forms.antt =====
-- The form and the health partial of example/orders-service/dashboard.go.
use gokit_services.Common.{
  ℕ, String, Bool, true, false, ◌||◌, Option, none, some, [], ◌∷◌, ltb, if◌then◌else◌,
}
use gokit_services.Common.Int.{ℤ, pos, negsuc}
use gokit_services.Common.Errors.{Err, Result, ok, err}
use gokit_services.Orders.Api.{CreateRequest}
use gokit_services.Dashboard.{Source, OrdersPanel}

-- The form, with what `ParseInt` makes of its quantity.
pub record Form : Type 0 where
  pub customer_id : String
  pub sku : String
  pub quantity : Result ℤ
  pub source : Source

abbrev pub max_quantity : ℕ
max_quantity = 1_000_000

unfoldable pub form_quantity : Result ℤ → ℤ
form_quantity (err e) = pos 1
form_quantity (ok (negsuc n)) = pos 1
form_quantity (ok (pos n)) = if ltb n 1 || ltb max_quantity n then pos 1 else pos n

unfoldable pub form_request : Form → CreateRequest
unfolding form_quantity
form_request f = record {
  customer_id = f.customer_id;
  items = record { sku = f.sku; quantity = form_quantity f.quantity } ∷ [];
}

-- What `handleCreatePartial` answers: an HTTP error, or a panel after the request was sent.
pub data CreateReply : Type 0 where
  http_error : ℕ → String → CreateReply
  panel : OrdersPanel → CreateReply

-- `post` sends the request to the REST API, whose failure is logged; the panels are read afterwards.
unfoldable pub create_partial :
    {W : Type 0}
    → (CreateRequest → W → Option Err × W)
    → (Source → W → OrdersPanel × W)
    → Result Form
    → Option Err
    → W
    → CreateReply × W
unfolding form_request
create_partial post read (err e) unmarshaled w = (http_error 400 "invalid form", w)
create_partial post read (ok f) (some e) w = (http_error 500 "encode request", w)
create_partial post read (ok f) none w =
    let (failed, w') = post (form_request f) w in
    let (shown, w'') = read f.source w' in (panel shown, w'')

pub record HealthView : Type 0 where
  pub live : String
  pub live_ok : Bool
  pub ready : String
  pub ready_ok : Bool

-- `handleHealthPartial`, by what the two requests return; `text_of` is `Error()`.
unfoldable pub health_partial : (Err → String) → Result String → Result String → HealthView
health_partial text_of live ready = record {
  live = elim live [ ok s ↦ s | err e ↦ "unreachable" ];
  live_ok = elim live [ ok s ↦ true | err e ↦ false ];
  ready = elim ready [ ok s ↦ s | err e ↦ text_of e ];
  ready_ok = elim ready [ ok s ↦ true | err e ↦ false ];
}
