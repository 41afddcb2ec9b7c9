-- ===== src/Dashboard/PageTests.antt =====
-- The orders panel over the store of Shop.
use gokit_services.Common.{
  ℕ, ◌+◌, ◌≡◌, refl, subst, String, str_eq, Bool, false, arith, Option, none, some, List, [], ◌∷◌,
  map, if◌then◌else◌,
}
use gokit_services.Common.Errors.{Err, Result, ok, foreign}
use gokit_services.Http.Server.{serve, final_status, sets_type, writes}
use gokit_services.Http.Server as Server
use gokit_services.Http.Client.{Request, Response}
use gokit_services.Orders.Memory.{InMemoryStore, in_memory}
use gokit_services.Orders.Memory
use gokit_services.Orders.Api.{Body, CreateRequest, HttpReply, Handled, to_response, handle_list}
use gokit_services.Orders.Api.Serving.{mux, ApiRequest, dispatch, handled, written, write_json}
use gokit_services.Orders.Shop.{tally, shop, anns, bobs}
use gokit_services.Common.{◌≢◌, ◌⊎◌}
use gokit_services.Common.Int.{pos}
use gokit_services.Dashboard.Forms.{Form, form_request, panel, create_partial}
use gokit_services.Dashboard.Ordering.{Accepts, Rejects, rest_post, form_ordered}
use gokit_services.Dashboard.{Source, OrdersPanel, source_rest}
use gokit_services.Dashboard.{stats_partial}
use gokit_services.Dashboard.Panels.{stats_exact}
use gokit_services.Dashboard.Pages.{Client, handle_orders_partial}
use gokit_services.Dashboard.Reading.{Decodes, Delivers, Shows, panel_of_store}
use gokit_services.Dashboard.Tests.{names, names-IsLawful, strokes, read_strokes}

abbrev match : String → String → String → Option String
match pattern method path = if str_eq pattern "POST /orders" then none else some ""

abbrev no_request : List ℕ → Bool → Option CreateRequest
no_request bytes broken = none

abbrev as_text : Body → Result String
as_text body = ok "orders"

abbrev get_orders : Request
get_orders = record {
  http_method = "GET";
  url = "/orders";
  headers = [];
  body = none;
  content_length = 0;
}

abbrev answer : Response
answer = record { status = 200; read = ok "orders"; close = none }

abbrev browser : Client
browser = record {
  decode = λ text. ok (map (to_response strokes) (anns ∷ bobs ∷ []));
  status_text = λ status. "";
  create = λ method url. ok get_orders;
  canonical = λ key. key;
  send = λ request. ok answer;
}

abbrev page_request : Server.Request
page_request = record { pattern_in = ""; pattern_out = ""; http_method = "GET"; path = "/orders" }

abbrev asked : ApiRequest
asked = record { http_method = "GET"; path = "/orders"; body = [] }

some_injective : {A : Type 0} (a b : A) → some a ≡ some b → a ≡ b
some_injective a b h = ground (arith, h)

abbrev Arrives : Handled HttpReply InMemoryStore → Type 0
Arrives h =
    Decodes as_text browser h.reply.body
    × Delivers match no_request (λ id. none) (in_memory tally) strokes as_text (λ text. 6) 0
        page_request h.reply answer

arrives :
    (h : Handled HttpReply InMemoryStore)
    → dispatch match no_request (λ id. none) (in_memory tally) strokes mux 5 asked shop ≡ some h
    → Arrives h
unfolding dispatch mux handled handle_list in_memory Memory.list to_response serve written
    write_json Server.act Server.write_header Server.write Server.wire_write
    Server.wire_write_header Server.recovered
arrives h e =
    subst Arrives (some_injective (handle_list (in_memory tally) strokes 5 shop) h e)
      (("orders", refl, refl, refl), (refl, λ t same. same))

panel_of_store_example :
    (p : OrdersPanel) × Shows match no_request
      (λ id. none)
      (in_memory tally)
      strokes
      as_text
      (λ text. 6)
      0
      page_request
      names
      read_strokes
      9
      browser
      (ok (anns ∷ bobs ∷ []))
      p
    × (handle_orders_partial (λ panel. 100 ∷ 20 ∷ []) names read_strokes 9 browser
        ≡ sets_type "text/html; charset=utf-8" ∷ writes 100 ∷ writes 20 ∷ [])
    × (final_status
          (serve 0 page_request (record {
            actions = handle_orders_partial (λ panel. 100 ∷ 20 ∷ []) names read_strokes 9 browser;
            panics = false;
          })).wire
        ≡ 200)
unfolding in_memory Memory.list
panel_of_store_example =
    panel_of_store match no_request (λ id. none) (in_memory tally) strokes as_text (λ text. 6) 0
      page_request (λ panel. 100 ∷ 20 ∷ []) names read_strokes 9 5 browser get_orders answer asked
      shop names-IsLawful (record { not_create = refl; lists = ("", refl) }) refl refl arrives

stats_exact_example :
    let v = stats_partial names (map (to_response strokes) (anns ∷ bobs ∷ []), none) in
    (v.total ≡ 2)
    × (v.pending ≡ 1)
    × (v.confirmed ≡ 1)
    × (v.canceled ≡ 0)
    × (v.pending + v.confirmed + v.canceled ≡ v.total)
    × (v.error ≡ none)
stats_exact_example = stats_exact names names-IsLawful strokes (anns ∷ bobs ∷ []) (refl, (refl, tt))

-- An order for two pens by cat, sent in three bytes.
abbrev form : Form
form = record { customer_id = "cat"; sku = "pen"; quantity = ok (pos 2); source = source_rest }

abbrev posted : ApiRequest
posted = record { http_method = "POST"; path = "/orders"; body = 1 ∷ 2 ∷ 3 ∷ [] }

abbrev match_post : String → String → String → Option String
match_post pattern method path = if str_eq pattern "POST /orders" then some "" else none

abbrev decode_form : List ℕ → Bool → Option CreateRequest
decode_form bytes broken = if broken then none else some (form_request form)

-- The pool is full, and the panel that is shown is empty.
abbrev full : String → Option Err
full id = some (foreign 5)

abbrev nothing_shown : Source → InMemoryStore × List String → OrdersPanel
nothing_shown source w = record { source = source; rows = []; error = none }

form_ordered_example :
    (h : Handled HttpReply InMemoryStore) × (dispatch match_post decode_form full
        (in_memory tally)
        strokes
        mux
        50
        posted
        shop
      ≡ some h)
    × (create_partial
          (rest_post match_post decode_form full tally strokes
            (λ wanted. posted)
            (λ reply. none)
            50)
          (λ source w. (nothing_shown source w, w))
          (ok form)
          none
          (shop, "i" ∷ [])
        ≡ (
          panel (nothing_shown source_rest (h.state, "i" ∷ h.enqueued)),
          (h.state, "i" ∷ h.enqueued),
        ))
    × (((form.customer_id ≢ "")
          × (form.sku ≢ "")
          × Accepts match_post decode_form full tally strokes 50 form shop h)
        ⊎ ((¬ ((form.customer_id ≢ "") × (form.sku ≢ "")))
            × Rejects match_post decode_form full tally strokes shop h))
form_ordered_example =
    form_ordered match_post decode_form full tally strokes 50 form (λ wanted. posted)
      (λ reply. none) nothing_shown shop ("i" ∷ []) "" refl (omega arith) refl
