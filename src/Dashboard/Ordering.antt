-- ===== src/Dashboard/Ordering.antt =====
-- The form of example/orders-service/dashboard.go, posted to the REST API of
-- example/orders-service/httpapi.go over the in-memory store.
use gokit_services.Common.{
  ℕ, zero, suc, ◌+◌, ◌%◌, ◌^◌, ◌≤◌, ◌≡◌, ◌≢◌, refl, ap, ap₂, ◌∙◌, ◌⊎◌, inl, inr, eq_refl, String,
  ◌||◌, ◌++◌, Bool, true, false, if◌then◌else◌, Option, Option-cases, none, some, List, [], ◌∷◌,
  length, ltb, arith,
}
use gokit_services.Common.Errors.{Err, Result, ok, err}
use gokit_services.Common.Int.{ℤ, pos, negsuc}
use gokit_services.Common.Assoc.{lookup, insert, lookup-insert}
use gokit_services.Orders.{Order, pending}
use gokit_services.Orders.Memory.{InMemoryStore, in_memory}
use gokit_services.Orders.Memory
use gokit_services.Orders.Validation.{validate_new_order}
use gokit_services.Orders.Jobs.{enqueue}
use gokit_services.Orders.Api.{
  CreateRequest, Handled, HttpReply, order_body, handle_create, to_response, queued,
}
use gokit_services.Orders.Api.Serving.{
  mux, ApiRequest, dispatch, handled, limited, take, max_create_body_bytes,
}
use gokit_services.Dashboard.Forms.{
  Form, form_request, form_quantity, max_quantity, panel, create_partial,
}
use gokit_services.Dashboard.{Source, OrdersPanel}
use gokit_services.Dashboard.Accepted.{form_accepted}

take_all : {A : Type 0} (xs : List A) (n : ℕ) → length xs ≤ n → take xs n ≡ xs
take_all [] n h = refl
take_all (x ∷ xs) zero h = absurd (omega (arith, h))
take_all (x ∷ xs) (suc n) h = ap (λ l. x ∷ l) (take_all xs n (omega (arith, h)))

-- A body within the limit is read as it is.
limited_within :
    (body : List ℕ) → length body ≤ max_create_body_bytes → limited body ≡ (body, false)
unfolding limited
limited_within body h =
    let whole : ltb max_create_body_bytes (length body) ≡ false = ground (arith, h) in
    ap₂ (λ b c. (b, c)) (take_all body max_create_body_bytes h) whole

-- The quantity that was entered is the number n, within the bounds of the form.
abbrev Entered : Result ℤ → ℕ → Type 0
Entered r n = (r ≡ ok (pos n)) × (1 ≤ n) × (n ≤ 1_000_000)

-- The quantity of the order: what was entered, if it was such a number, and else 1.
abbrev pub Quantity : Result ℤ → ℤ → Type 0
Quantity r q =
    ((n : ℕ) × (r ≡ ok (pos n)) × (1 ≤ n) × (n ≤ 1_000_000) × (q ≡ pos n))
    ⊎ ((¬ ((n : ℕ) × Entered r n)) × (q ≡ pos 1))

replaced-Quantity :
    (b : Bool) (n : ℕ)
    → (ltb n 1 || ltb max_quantity n) ≡ b
    → Quantity (ok (pos n)) (if b then pos 1 else pos n)
replaced-Quantity true n h = inr (λ (k, (e, lo, hi)). ground (arith, h, e, lo, hi), refl)
replaced-Quantity false n h = inl (n, refl, ground (arith, h), ground (arith, h), refl)

form_quantity-Quantity : (r : Result ℤ) → Quantity r (form_quantity r)
unfolding form_quantity
form_quantity-Quantity (err e) = inr (λ (n, (same, lo, hi)). ground (arith, same), refl)
form_quantity-Quantity (ok (negsuc k)) = inr (λ (n, (same, lo, hi)). ground (arith, same), refl)
form_quantity-Quantity (ok (pos n)) = replaced-Quantity (ltb n 1 || ltb max_quantity n) n refl

module _ (matches : String → String → String → Option String)
    (decode : List ℕ → Bool → Option CreateRequest) (submit : String → Option Err)
    (format_id : ℕ → String) (format : ℕ → String) where
  dispatch_create :
      (now : ℕ) (req : ApiRequest) (s : InMemoryStore) (id : String) (wanted : CreateRequest)
      → matches "POST /orders" req.http_method req.path ≡ some id
      → length req.body ≤ max_create_body_bytes
      → decode req.body false ≡ some wanted
      → dispatch matches decode submit (in_memory format_id) format mux now req s
        ≡ some (handle_create submit (in_memory format_id) format now (some wanted) s)
  unfolding dispatch mux handled
  dispatch_create now req s id wanted found short decoded =
      let routed : dispatch matches decode submit (in_memory format_id) format mux now req s
          ≡ some (
              handle_create submit (in_memory format_id) format now
                (decode (limited req.body).0 (limited req.body).1) s) =
        rw (dispatch, found) refl in
      routed
      ∙ ap (λ o. some (handle_create submit (in_memory format_id) format now o s))
          (ap (λ p. decode p.0 p.1) (limited_within req.body short) ∙ decoded)

  -- The order that a form asks for with that quantity, under the next number of the store.
  abbrev pub ordered : ℕ → Form → ℤ → InMemoryStore → Order
  ordered now f q s = record {
    id = format_id ((s.next_id + 1) % 2 ^ 64);
    customer_id = f.customer_id;
    items = record { sku = f.sku; quantity = q } ∷ [];
    status = pending;
    created_at = now;
    updated_at = now;
  }

  -- What the API makes of a form: the order, kept, answered with 201, and enqueued if the pool takes
  -- its task; or nothing.
  abbrev pub Accepts : ℕ → Form → InMemoryStore → Handled HttpReply InMemoryStore → Type 0
  Accepts now f s h =
      (q : ℤ) × Quantity f.quantity q
      × (h.reply
          ≡ record { status = 201; body = order_body (to_response format (ordered now f q s)) })
      × (lookup (ordered now f q s).id h.state.orders ≡ some (ordered now f q s))
      × (((submit (ordered now f q s).id ≡ none) × (h.enqueued ≡ (ordered now f q s).id ∷ []))
          ⊎ ((e : Err) × (submit (ordered now f q s).id ≡ some e) × (h.enqueued ≡ [])))

  abbrev pub Rejects : InMemoryStore → Handled HttpReply InMemoryStore → Type 0
  Rejects s h = (h.reply.status ≡ 400) × (h.state ≡ s) × (h.enqueued ≡ [])

  lookup_inserted :
      (k : String) (o : Order) (s : InMemoryStore) → lookup k (insert k o s.orders) ≡ some o
  lookup_inserted k o s = rw (lookup-insert k k o s.orders, eq_refl k) refl

  queued_if :
      (id : String)
      → ((submit id ≡ none) × (queued submit id ≡ id ∷ []))
        ⊎ ((e : Err) × (submit id ≡ some e) × (queued submit id ≡ []))
  unfolding queued enqueue
  queued_if id = elim (Option-cases (submit id)) [
    | inl none_left ↦ inl (none_left, rw (queued, none_left) refl)
    | inr (e, full) ↦ inr (e, full, rw (queued, full) refl)
  ]

  accepted :
      (now : ℕ) (f : Form) (s : InMemoryStore)
      → let req = form_request f in
        validate_new_order req.customer_id req.items ≡ none
        → Accepts now f s (handle_create submit (in_memory format_id) format now (some req) s)
  unfolding handle_create in_memory Memory.create form_request
  accepted now f s v =
      let o = ordered now f (form_quantity f.quantity) s in
      rw (v, handle_create)
        (
          form_quantity f.quantity,
          form_quantity-Quantity f.quantity,
          refl,
          lookup_inserted o.id o s,
          queued_if o.id,
        )

  rejected :
      (now : ℕ) (f : Form) (s : InMemoryStore) (reason : String)
      → let req = form_request f in
        validate_new_order req.customer_id req.items ≡ some reason
        → Rejects s (handle_create submit (in_memory format_id) format now (some req) s)
  unfolding handle_create
  rejected now f s reason v = rw (v, handle_create) (refl, refl, refl)

  -- The request of the page as the API gets it: `wire` is how net/http carries an encoded request, and
  -- `told` what the page learns of the reply. The state is the store and the ids that were enqueued.
  abbrev pub rest_post :
      (CreateRequest → ApiRequest)
      → (Option HttpReply → Option Err)
      → ℕ
      → CreateRequest
      → InMemoryStore × List String
      → Option Err × (InMemoryStore × List String)
  rest_post wire told now wanted (s, queue) =
      elim (dispatch matches decode submit (in_memory format_id) format mux now (wire wanted) s) [
        | none ↦ (told none, (s, queue))
        | some h ↦ (told (some h.reply), (h.state, queue ++ h.enqueued))
      ]

  page_posts :
      (wire : CreateRequest → ApiRequest) (told : Option HttpReply → Option Err)
      (show : Source → InMemoryStore × List String → OrdersPanel) (now : ℕ) (f : Form)
      (s : InMemoryStore) (queue : List String) (h : Handled HttpReply InMemoryStore)
      → dispatch matches decode submit
          (in_memory format_id)
          format
          mux
          now
          (wire (form_request f))
          s
        ≡ some h
      → create_partial
          (rest_post wire told now)
          (λ source w. (show source w, w))
          (ok f)
          none
          (s, queue)
        ≡ (panel (show f.source (h.state, queue ++ h.enqueued)), (h.state, queue ++ h.enqueued))
  unfolding create_partial
  page_posts wire told show now f s queue h d =
      let sent : rest_post wire told now (form_request f) (s, queue)
          ≡ (told (some h.reply), (h.state, queue ++ h.enqueued)) =
        ap
          (λ o. elim o [
            | none ↦ (told none, (s, queue))
            | some k ↦ (told (some k.reply), (k.state, queue ++ k.enqueued))
          ])
          d in
      ap (λ r. (panel (show f.source r.1), r.1)) sent

  -- A form from the page to the store. Where the mux of the API routes the page's request to the
  -- creation of orders, its body is within the limit, and the API decodes the request that the page
  -- encoded: if the customer and the SKU are not empty, the store keeps an order for the customer of
  -- that SKU, with the quantity that was entered if it was a number from 1 to 1,000,000 and else 1,
  -- and the API answers with it and 201 and enqueues it once, or not at all if the pool does not take
  -- its task; if not, the API answers with 400, and nothing is stored or enqueued. Whatever
  -- the page learns of this, it shows the panel of the form's source, read in that state.
  pub form_ordered :
      (now : ℕ) (f : Form) (wire : CreateRequest → ApiRequest)
      (told : Option HttpReply → Option Err)
      (show : Source → InMemoryStore × List String → OrdersPanel) (s : InMemoryStore)
      (queue : List String) (id : String)
      → let req = wire (form_request f) in
        matches "POST /orders" req.http_method req.path ≡ some id
        → length req.body ≤ max_create_body_bytes
        → decode req.body false ≡ some (form_request f)
        → (h : Handled HttpReply InMemoryStore) × (dispatch matches decode submit
              (in_memory format_id)
              format
              mux
              now
              req
              s
            ≡ some h)
          × (create_partial
                (rest_post wire told now)
                (λ source w. (show source w, w))
                (ok f)
                none
                (s, queue)
              ≡ (
                panel (show f.source (h.state, queue ++ h.enqueued)),
                (h.state, queue ++ h.enqueued),
              ))
          × (((f.customer_id ≢ "") × (f.sku ≢ "") × Accepts now f s h)
              ⊎ ((¬ ((f.customer_id ≢ "") × (f.sku ≢ ""))) × Rejects s h))
  form_ordered now f wire told show s queue id found short decoded =
      let wanted = form_request f in
      let routed = dispatch_create now (wire wanted) s id wanted found short decoded in
      (
        handle_create submit (in_memory format_id) format now (some wanted) s,
        routed,
        page_posts wire told show now f s queue _ routed,
        elim (Option-cases (validate_new_order wanted.customer_id wanted.items)) [
          | inl v ↦ let (named, sku) = (form_accepted f).0 v in inl (named, sku, accepted now f s v)
          | inr (reason, v) ↦
              inr ((λ both. ground (arith, (form_accepted f).1 both, v)), rejected now f s reason v)
        ],
      )
