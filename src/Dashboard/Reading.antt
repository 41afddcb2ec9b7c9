-- ===== src/Dashboard/Reading.antt =====
-- The orders panel of example/orders-service/dashboard.go over the REST API of
-- example/orders-service/httpapi.go: from the store to the page.
use mathlib.Core.List.{foldl}
use gokit_services.Common.{
  ℕ, Bool, subst, ◌≡◌, refl, ◌∙◌, String, str_eq, false, Option, none, some, List, [], ◌∷◌, map,
  arith,
}
use gokit_services.Common.Errors.{Err, Result, ok, err, errorf, num, text}
use gokit_services.Http.Server.{
  serve, final_status, recovered, act, write, wire_write, wire_write_header, sets_type, writes,
  ResponseWriter,
}
use gokit_services.Http.Server as Server
use gokit_services.Http.Client.{Request, Response, do_request, received, decoded}
use gokit_services.Orders.{Order, Store}
use gokit_services.Orders.Api.{
  Body, error_body, orders_body, OrderResponse, CreateRequest, HttpReply, Handled, handle_list,
  to_response,
}
use gokit_services.Orders.Api.Serving.{mux, ApiRequest, dispatch, handled, write_json, written-sent}
use gokit_services.Dashboard.Panels.{IsLawful}
use gokit_services.Dashboard.Rows.{ShowsOrders, rest_rows-ShowsOrders}
use gokit_services.Dashboard.{Strings, OrdersPanel, orders_partial, about}
use gokit_services.Dashboard.Pages.{Client, fetch_orders, render, handle_orders_partial}

-- What the client relies on: a reply is encoded as a text, and a list is decoded as it was encoded.
abbrev pub Decodes : (Body → Result String) → Client → Body → Type 0
Decodes encode c (orders_body rs) =
    (t : String) × (encode (orders_body rs) ≡ ok t) × (str_eq t "" ≡ false) × (c.decode t ≡ ok rs)
Decodes encode c body = (t : String) × (encode body ≡ ok t)

-- What the mux documents of the route of the list.
pub record IsRouted (matches : String → String → String → Option String) (req : ApiRequest)
    : Type 0 where
  pub not_create : matches "POST /orders" req.http_method req.path ≡ none
  pub lists : (id : String) × (matches "GET /orders" req.http_method req.path ≡ some id)

write_keeps :
    (k : ℕ) (w : ResponseWriter)
    → final_status w.wire ≡ 200
    → final_status (act w (writes k)).wire ≡ 200
unfolding act write wire_write wire_write_header
write_keeps k w h = ground (arith, h)

pieces_sent :
    (ks : List ℕ) (w : ResponseWriter)
    → final_status w.wire ≡ 200
    → final_status (foldl act w (map writes ks)).wire ≡ 200
pieces_sent [] w h = h
pieces_sent (k ∷ ks) w h = pieces_sent ks (act w (writes k)) (write_keeps k w h)

-- A rendered page has status 200, in however many pieces it is written.
render-sent :
    {V : Type 0} (execute : V → List ℕ) (view : V) (n : ℕ) (req : Server.Request)
    → final_status (serve n req (record { actions = render execute view; panics = false })).wire
      ≡ 200
unfolding serve recovered render act
render-sent execute view n req = pieces_sent (execute view) _ refl

module _ (matches : String → String → String → Option String)
    (decode : List ℕ → Bool → Option CreateRequest) (submit : String → Option Err) {S : Type 0}
    (store : Store S) (format : ℕ → String) where
  dispatch_list :
      (now : ℕ) (req : ApiRequest) (s : S)
      → IsRouted matches req
      → dispatch matches decode submit store format mux now req s
        ≡ some (handle_list store format now s)
  unfolding dispatch mux handled
  dispatch_list now req s routed =
      let (id, found) = routed.lists in rw (dispatch, routed.not_create, found) refl

  -- What the client gets of a reply: the status that the server sent, and the encoded body.
  module _ (encode : Body → Result String) (size : String → ℕ) (n : ℕ) (req : Server.Request) where
    abbrev pub Delivers : HttpReply → Response → Type 0
    Delivers reply resp =
        (resp.status
          ≡ final_status
              (serve n req
                (record { actions = write_json encode size reply; panics = false })).wire)
        × ((t : String) → encode reply.body ≡ ok t → resp.read ≡ ok t)

    -- The panel of what the store answers: a row that shows each order, or no row and the API's error.
    abbrev pub Shows :
        Strings → (String → Option ℕ) → ℕ → Client → Result (List Order) → OrdersPanel → Type 0
    Shows st parse at c (ok os) p = ShowsOrders st parse format at os p.rows × (p.error ≡ none)
    Shows st parse at c (err e) p =
        (p.rows ≡ [])
        × (t : String) × (p.error
            ≡ some (
                about "REST API error: %v" (
                  errorf "unexpected status %d %s: %s"
                    (num 500 ∷ text (c.status_text 500) ∷ text t ∷ []))))

    fetched :
        (c : Client) (r : Request) (resp : Response)
        → c.create "GET" "/orders" ≡ ok r
        → c.send r ≡ ok resp
        → (fetch_orders c).result ≡ received c.decode [] c.status_text resp
    unfolding fetch_orders do_request
    fetched c r resp made sent = rw (fetch_orders, do_request, made, sent) refl

    received_list :
        (c : Client) (resp : Response) (rs : List OrderResponse)
        → Decodes encode c (orders_body rs)
        → Delivers (record { status = 200; body = orders_body rs }) resp
        → received c.decode [] c.status_text resp ≡ ok rs
    unfolding received decoded write_json
    received_list c resp rs (t, e, full, back) (status, body) =
        let (final, type, noted) = written-sent size n req 200 (encode (orders_body rs)) refl in
        rw (received, body t e, decoded, status ∙ final, full, back) refl

    received_error :
        (c : Client) (resp : Response) (message : String)
        → Decodes encode c (error_body message)
        → Delivers (record { status = 500; body = error_body message }) resp
        → (t : String) × (received c.decode [] c.status_text resp
            ≡ err (
                errorf "unexpected status %d %s: %s"
                  (num 500 ∷ text (c.status_text 500) ∷ text t ∷ [])))
    unfolding received decoded write_json
    received_error c resp message (t, e) (status, body) =
        let (final, type, noted) = written-sent size n req 500 (encode (error_body message)) refl in
        (t, rw (received, body t e, decoded, status ∙ final) refl)

    reply_ok :
        (now : ℕ) (s : S) (os : List Order)
        → (store.list now s).0 ≡ ok os
        → (handle_list store format now s).reply
          ≡ record { status = 200; body = orders_body (map (to_response format) os) }
    unfolding handle_list
    reply_ok now s os h = rw (handle_list, h) refl

    reply_err :
        (now : ℕ) (s : S) (e : Err)
        → (store.list now s).0 ≡ err e
        → (handle_list store format now s).reply
          ≡ record { status = 500; body = error_body "internal error" }
    unfolding handle_list
    reply_err now s e h = rw (handle_list, h) refl

    list-Shows :
        (st : Strings) (parse : String → Option ℕ) (at now : ℕ) (c : Client) (resp : Response)
        (s : S) (r : Result (List Order))
        → IsLawful st
        → (store.list now s).0 ≡ r
        → Decodes encode c (handle_list store format now s).reply.body
        → Delivers (handle_list store format now s).reply resp
        → Shows st parse at c r
            (orders_partial st parse at (received c.decode [] c.status_text resp))
    unfolding orders_partial
    list-Shows st parse at now c resp s (ok os) law h codec sent =
        rw
          (received_list c resp (map (to_response format) os)
            (subst (λ a. Decodes encode c a.body) (reply_ok now s os h) codec)
            (subst (λ a. Delivers a resp) (reply_ok now s os h) sent))
          (rest_rows-ShowsOrders st parse format at os law, refl)
    list-Shows st parse at now c resp s (err e) law h codec sent =
        let (t, failed) =
          received_error c resp "internal error"
            (subst (λ a. Decodes encode c a.body) (reply_err now s e h) codec)
            (subst (λ a. Delivers a resp) (reply_err now s e h) sent) in
        rw failed (refl, t, refl)

    -- The orders panel from the store to the page. Where the mux routes the request to the list, the
    -- API's answer arrives as its server sent it, and the client decodes the list that was encoded:
    -- what the page writes is the HTML content type and the template's rendering of a panel that has
    -- a row for each order that `List` of the store gives, in its order, and no error. The row shows
    -- the order's id and customer, the word of its state if it is one that the code names, the sum of
    -- its quantities, the time of its creation, and its age if that time can be read. If `List`
    -- fails, the panel has no row and shows that the API answered with 500. The page has status 200
    -- in both cases.
    pub panel_of_store :
        (execute : OrdersPanel → List ℕ) (st : Strings) (parse : String → Option ℕ) (at now : ℕ)
        (c : Client) (r : Request) (resp : Response) (asked : ApiRequest) (s : S)
        → IsLawful st
        → IsRouted matches asked
        → c.create "GET" "/orders" ≡ ok r
        → c.send r ≡ ok resp
        → ((h : Handled HttpReply S)
            → dispatch matches decode submit store format mux now asked s ≡ some h
            → Decodes encode c h.reply.body × Delivers h.reply resp)
        → let page = handle_orders_partial execute st parse at c in
          (p : OrdersPanel) × Shows st parse at c (store.list now s).0 p
          × (page ≡ sets_type "text/html; charset=utf-8" ∷ map writes (execute p))
          × (final_status (serve n req (record { actions = page; panics = false })).wire ≡ 200)
    unfolding handle_orders_partial render
    panel_of_store execute st parse at now c r resp asked s law routed made sent delivered =
        let (codec, arrived) =
          delivered (handle_list store format now s) (dispatch_list now asked s routed) in
        (
          orders_partial st parse at (fetch_orders c).result,
          rw (fetched c r resp made sent)
              (list-Shows st parse at now c resp s (store.list now s).0 law refl codec arrived),
          refl,
          render-sent execute _ n req,
        )
