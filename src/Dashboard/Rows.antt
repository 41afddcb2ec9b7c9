-- ===== src/Dashboard/Rows.antt =====
-- The rows of the orders panel of example/orders-service/dashboard.go against the orders of the store.
use mathlib.Core.List.{foldl}
use gokit_services.Common.{
  ℕ, ◌≡◌, refl, ◌∙◌, arith, true, ◌⊎◌, inl, inr, String, Bool-cases, false, Option, Option-cases,
  none, some, List, [], ◌∷◌, map,
}
use gokit_services.Common.Int.{ℤ, pos, add_int64}
use gokit_services.Orders.{Order, Item, Status, pending, confirmed, canceled, other}
use gokit_services.Orders.Api.{to_response, status_text}
use gokit_services.Dashboard.{
  Strings, normalize_status, DashboardOrder, Shown, as_sent, relative, rel_time, since, rest_row,
  total_qty,
}
use gokit_services.Dashboard.Panels.{is_known, IsLawful, rest_normalized}

-- The word that a row shows for a state that the code names.
abbrev pub word : Status → String
word pending = "pending"
word confirmed = "confirmed"
word canceled = "canceled"
word (other s) = s

module _ (st : Strings) (parse : String → Option ℕ) (format : ℕ → String) (at : ℕ) where
  -- The row shows the order: its id and customer, the word of its state if the code names it, the sum
  -- of its quantities as an int64, the time of its creation, and its age if that time can be read.
  pub record ShowsOrder (o : Order) (row : DashboardOrder) : Type 0 where
    id : row.id ≡ o.id
    customer : row.customer_id ≡ o.customer_id
    state : (is_known o.status ≡ false) ⊎ (row.status ≡ word o.status)
    sum : row.qty ≡ foldl (λ q it. add_int64 q it.quantity) (pos 0) o.items
    time : row.created_ts ≡ format o.created_at
    age :
        ((parse (format o.created_at) ≡ none) × (row.created_at ≡ as_sent (format o.created_at)))
        ⊎ ((t : ℕ) × (parse (format o.created_at) ≡ some t)
            × (row.created_at ≡ relative (rel_time (since at t))))

  -- A row for each order, in the order of the list.
  abbrev pub ShowsOrders : List Order → List DashboardOrder → Type 0
  ShowsOrders [] [] = Unit
  ShowsOrders [] (row ∷ rows) = ⊥
  ShowsOrders (o ∷ os) [] = ⊥
  ShowsOrders (o ∷ os) (row ∷ rows) = ShowsOrder o row × ShowsOrders os rows

  lowered : (s : Status) → IsLawful st → is_known s ≡ true → st.lower (status_text s) ≡ word s
  lowered pending law k = law.lowers.0
  lowered confirmed law k = law.lowers.1
  lowered canceled law k = law.lowers.2
  lowered (other s) law k = ground (arith, k)

  word_shown :
      (s : Status)
      → IsLawful st
      → (is_known s ≡ false) ⊎ (normalize_status st (status_text s) ≡ word s)
  word_shown s law = elim (Bool-cases (is_known s)) [
    | inl k ↦ inr (rest_normalized st law s k ∙ lowered s law k)
    | inr unknown ↦ inl unknown
  ]

  total_qty_lem :
      (items : List Item) (q : ℤ)
      → total_qty q items ≡ foldl (λ p it. add_int64 p it.quantity) q items
  unfolding total_qty
  total_qty_lem [] q = refl
  total_qty_lem (it ∷ items) q = total_qty_lem items (add_int64 q it.quantity)

  age_shown :
      (text : String)
      → let shown : Shown = elim (parse text) [
        | none ↦ as_sent text
        | some t ↦ relative (rel_time (since at t))
      ] in
        ((parse text ≡ none) × (shown ≡ as_sent text))
        ⊎ ((t : ℕ) × (parse text ≡ some t) × (shown ≡ relative (rel_time (since at t))))
  age_shown text = elim (Option-cases (parse text)) [
    | inl e ↦ inl (e, rw e refl)
    | inr (t, e) ↦ inr (t, e, rw e refl)
  ]

  rest_row-ShowsOrder :
      (o : Order) → IsLawful st → ShowsOrder o (rest_row st parse at (to_response format o))
  unfolding rest_row to_response
  rest_row-ShowsOrder o law = record {
    id = refl;
    customer = refl;
    state = word_shown o.status law;
    sum = total_qty_lem o.items (pos 0);
    time = refl;
    age = age_shown (format o.created_at);
  }

  pub rest_rows-ShowsOrders :
      (os : List Order)
      → IsLawful st
      → ShowsOrders os (map (rest_row st parse at) (map (to_response format) os))
  rest_rows-ShowsOrders [] law = tt
  rest_rows-ShowsOrders (o ∷ os) law = (rest_row-ShowsOrder o law, rest_rows-ShowsOrders os law)
