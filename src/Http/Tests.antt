-- ===== src/Http/Tests.antt =====
-- The theorems on Http at concrete requests.
use mathlib.Core.List.{foldl}
use gokit_services.Common.{
  ℕ, ◌+◌, ◌≡◌, refl, ◌⊎◌, ◌↔◌, String, str_eq, true, false, none, some, List, [], ◌∷◌, length,
  if◌then◌else◌,
}
use gokit_services.Common.Int.{pos}
use gokit_services.Common.Errors.{foreign, Result, ok, err}
use gokit_services.Http.Server.{
  Request, Call, sets_type, writes_header, writes, flushes, act, fresh_writer, serve, final_status,
  problem_content_type,
}
use gokit_services.Http.Server.Recording.{recorded_as_sent, panic_answered, panic_misrecorded}
use gokit_services.Http.Server.Inflight.{
  enter, leave, Traffic, Reach, here, next, begins, ends, quiet, entered, gauge_exact,
}
use gokit_services.Http.Client.{
  ClientOption, with_timeout, with_middleware, with_transport, new, Client, Response, do_request,
  apply_request, with_header,
}
use gokit_services.Http.Client as Client
use gokit_services.Http.Client.Wrapping.{transport_layered}
use gokit_services.Http.Client.Doing.{Answers, do_exact}

abbrev get_orders : Request
get_orders = record {
  pattern_in = "";
  pattern_out = "GET /orders";
  http_method = "GET";
  path = "/orders";
}

-- A handler that answers 404, and one that panics before it answers.
abbrev missing : Call
missing = record {
  actions = sets_type "text/plain" ∷ writes_header 404 ∷ writes 9 ∷ [];
  panics = false;
}

abbrev broken : Call
broken = record { actions = sets_type "text/plain" ∷ []; panics = true }

recorded_as_sent_example :
    ((serve 80 get_orders missing).status_code ≡ final_status (serve 80 get_orders missing).wire)
    × ((serve 80 get_orders missing).size ≡ (serve 80 get_orders missing).wire.body)
recorded_as_sent_example = recorded_as_sent 80 get_orders missing (refl, (refl, tt)) refl

panic_answered_example :
    let rw = foldl act fresh_writer broken.actions in
    let out = serve 80 get_orders broken in
    ((rw.wrote_header ≡ false)
      × (final_status out.wire ≡ 500)
      × (out.wire.sent_type ≡ some problem_content_type)
      × (out.wire.body ≡ rw.wire.body + 80))
    ⊎ ((rw.wrote_header ≡ true) × (out ≡ rw))
panic_answered_example = panic_answered 80 get_orders broken tt refl refl

panic_misrecorded_example :
    let informed =
      serve 80 get_orders (record { actions = writes_header 103 ∷ []; panics = true }) in
    let flushed = serve 80 get_orders (record { actions = flushes ∷ []; panics = true }) in
    (final_status informed.wire ≡ 200)
    × (informed.status_code ≡ 103)
    × (final_status flushed.wire ≡ 200)
    × (flushed.status_code ≡ 500)
panic_misrecorded_example = panic_misrecorded 80 103 get_orders refl

-- Two requests, of which the second has ended.
abbrev one_left : Traffic
one_left = record {
  active = get_orders ∷ [];
  metrics = leave 80 get_orders broken (enter get_orders (enter get_orders quiet.metrics));
  ended = 1;
}

one_left-Reach : Reach quiet one_left
one_left-Reach =
    next (next (next here (begins quiet get_orders)) (begins _ get_orders))
      (ends _ [] (get_orders ∷ []) get_orders 80 broken refl)

gauge_exact_example :
    ((p : String) → one_left.metrics.inflight p ≡ entered p one_left.active)
    × (length one_left.metrics.observed ≡ 1)
gauge_exact_example = gauge_exact one_left one_left-Reach

-- Transports that tell which layers they pass.
abbrev Trail : Type 0
Trail = List ℕ

abbrev two_layers : List (ClientOption Trail)
two_layers =
    with_middleware ((λ t. 1 ∷ t) ∷ (λ t. 2 ∷ t) ∷ [])
    ∷ with_timeout (pos 5)
    ∷ with_middleware ((λ t. 3 ∷ t) ∷ [])
    ∷ []

abbrev parses : String → Result ℕ
parses s = if str_eq s "http://orders" then ok 7 else err (foreign 1)

transport_layered_example :
    (d : Client Trail) × (new parses (λ a b c e. 9 ∷ []) "http://orders" two_layers ≡ ok d)
    × (d.transport ≡ some (1 ∷ 2 ∷ 3 ∷ 9 ∷ []))
    × (d.base_url ≡ 7)
transport_layered_example =
    transport_layered parses (λ a b c e. 9 ∷ []) "http://orders" two_layers 7 refl

-- A server that answers every request with one document.
abbrev fresh : Client.Request
fresh = record {
  http_method = "GET";
  url = "/orders/i";
  headers = [];
  body = none;
  content_length = 0;
}

abbrev document : Response
document = record { status = 200; read = ok "42"; close = none }

abbrev number : String → Result ℕ
number s = if str_eq s "42" then ok 42 else err (foreign 2)

do_exact_example :
    let d =
      do_request number 0
        (λ n. "OK")
        (λ m u. ok fresh)
        (λ k. k)
        (λ r. ok document)
        "GET"
        "/orders/i"
        (with_header "Accept" "application/json" ∷ []) in
    (d.result ≡ ok 42
      ↔ ((resp : Response) × (ok document ≡ ok resp) × Answers number 0 (λ n. "OK") resp 42))
    × (d.closed ≡ true ↔ ((resp : Response) × (ok document ≡ ok resp)))
do_exact_example =
    do_exact number 0 (λ n. "OK") (λ m u. ok fresh) (λ k. k) (λ r. ok document) "GET" "/orders/i"
      (with_header "Accept" "application/json" ∷ []) fresh 42 refl
