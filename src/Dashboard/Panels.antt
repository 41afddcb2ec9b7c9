-- ===== src/Dashboard/Panels.antt =====
-- The two panels of example/orders-service/dashboard.go against each other, and the counts against
-- the orders.
use Prim.Native.String.{◌++◌ as concat}
use gokit_services.Common.{
  ℕ, ◌+◌, ◌*◌, ◌/◌, ◌≡◌, refl, ap, ap₂, ◌∙◌, String, Bool, true, false, Option, none, some, List,
  [], ◌∷◌, map, length, length-map, All, if◌then◌else◌, arith,
}
use gokit_services.Common.Errors.{ok}
use gokit_services.Orders.{Order, Status, pending, confirmed, canceled, other}
use gokit_services.Orders.Api.{to_response, to_proto, to_proto_status, status_text}
use gokit_services.Dashboard.{
  Strings, normalize_status, DashboardOrder, rest_row, grpc_row, proto_name, orders_partial,
  grpc_orders_partial, StatsView, counted, count_all, stats_partial,
}

-- The states that the code names.
abbrev pub is_known : Status → Bool
is_known pending = true
is_known confirmed = true
is_known canceled = true
is_known (other s) = false

abbrev pub is_pending : Status → Bool
is_pending pending = true
is_pending _ = false

abbrev pub is_confirmed : Status → Bool
is_confirmed confirmed = true
is_confirmed _ = false

abbrev pub is_canceled : Status → Bool
is_canceled canceled = true
is_canceled _ = false

-- What the package strings documents, for the names of the states: a name in capitals stays as it is
-- under ToUpper, TrimPrefix takes the prefix away where it is there and else changes nothing, and
-- ToLower gives the small letters.
pub record IsLawful (st : Strings) : Type 0 where
  pub upper_keeps :
      (s : Status)
      → is_known s ≡ true
      → (st.upper (status_text s) ≡ status_text s)
        × (st.upper (concat "ORDER_STATUS_" (status_text s))
            ≡ concat "ORDER_STATUS_" (status_text s))
  pub trims :
      (s : Status)
      → is_known s ≡ true
      → st.trim_prefix (concat "ORDER_STATUS_" (status_text s)) "ORDER_STATUS_" ≡ status_text s
  pub trims_not :
      (s : Status)
      → is_known s ≡ true
      → st.trim_prefix (status_text s) "ORDER_STATUS_" ≡ status_text s
  pub lowers :
      (st.lower "PENDING" ≡ "pending")
      × (st.lower "CONFIRMED" ≡ "confirmed")
      × (st.lower "CANCELED" ≡ "canceled")

module _ (st : Strings) (law : IsLawful st) where
  pub rest_normalized :
      (s : Status)
      → is_known s ≡ true
      → normalize_status st (status_text s) ≡ st.lower (status_text s)
  unfolding normalize_status
  rest_normalized s k =
      ap st.lower
        (ap (λ u. st.trim_prefix u "ORDER_STATUS_") ((law.upper_keeps s k).0) ∙ law.trims_not s k)

  prefixed :
      (s : Status)
      → is_known s ≡ true
      → proto_name (to_proto_status s) ≡ concat "ORDER_STATUS_" (status_text s)
  unfolding to_proto_status
  prefixed pending k = refl
  prefixed confirmed k = refl
  prefixed canceled k = refl
  prefixed (other s) k = ground (arith, k)

  grpc_normalized :
      (s : Status)
      → is_known s ≡ true
      → normalize_status st (proto_name (to_proto_status s)) ≡ st.lower (status_text s)
  unfolding normalize_status
  grpc_normalized s k =
      ap (λ u. st.lower (st.trim_prefix (st.upper u) "ORDER_STATUS_")) (prefixed s k)
      ∙ ap st.lower
          (ap (λ u. st.trim_prefix u "ORDER_STATUS_") ((law.upper_keeps s k).1) ∙ law.trims s k)

  -- A row without the time that its tooltip shows.
  abbrev pub untipped : DashboardOrder → DashboardOrder
  untipped r = record r { created_ts = "" }

  -- Printing a time as RFC3339 and parsing it again loses the fraction of the second.
  module _ (format : ℕ → String) (parse : String → Option ℕ)
      (reads : (t : ℕ) → parse (format t) ≡ some (t / 1_000_000_000 * 1_000_000_000))
      (now : ℕ) where
    row_agrees :
        (o : Order)
        → is_known o.status ≡ true
        → untipped (rest_row st parse now (to_response format o))
          ≡ untipped (grpc_row st format now (to_proto o))
    unfolding rest_row grpc_row to_response to_proto
    row_agrees o k =
        rw (reads o.created_at, rest_normalized o.status k, grpc_normalized o.status k) refl

    rows_agree :
        (os : List Order)
        → All (λ o. is_known o.status ≡ true) os
        → map untipped (map (rest_row st parse now) (map (to_response format) os))
          ≡ map untipped (map (grpc_row st format now) (map to_proto os))
    rows_agree [] k = refl
    rows_agree (o ∷ os) (k, rest) = ap₂ (λ r l. r ∷ l) (row_agrees o k) (rows_agree os rest)

    -- For orders in the states that the code names, the panel that reads them over REST and the one
    -- that reads them over gRPC show the same rows in the same order: id, customer, state, total
    -- quantity and age, only the full time in the tooltip may differ.
    panels_agree :
        (os : List Order)
        → All (λ o. is_known o.status ≡ true) os
        → map untipped (orders_partial st parse now (ok (map (to_response format) os))).rows
          ≡ map untipped (grpc_orders_partial st format now true (ok (map to_proto os))).rows
    unfolding orders_partial grpc_orders_partial
    panels_agree os k = rows_agree os k

  -- How many of the orders are in the state.
  abbrev pub in_state : (Status → Bool) → List Order → ℕ
  in_state p [] = 0
  in_state p (o ∷ os) = (if p o.status then 1 else 0) + in_state p os

  -- The view with that much more in the three counts.
  abbrev raised : ℕ → ℕ → ℕ → StatsView → StatsView
  raised a b c v = record v {
    pending = a + v.pending;
    confirmed = b + v.confirmed;
    canceled = c + v.canceled;
  }

  raised_twice :
      (a b c d e g : ℕ) (v : StatsView)
      → raised a b c (raised d e g v) ≡ raised (d + a) (e + b) (g + c) v
  raised_twice a b c d e g v = ground arith

  abbrev one_if : Bool → ℕ
  one_if b = if b then 1 else 0

  counted_known :
      (s : Status) (v : StatsView)
      → is_known s ≡ true
      → counted (st.lower (status_text s)) v
        ≡ raised (one_if (is_pending s)) (one_if (is_confirmed s)) (one_if (is_canceled s)) v
  counted_known pending v k = rw (law.lowers.0) (ground arith)
  counted_known confirmed v k = rw (law.lowers.1) (ground arith)
  counted_known canceled v k = rw (law.lowers.2) (ground arith)
  counted_known (other s) v k = ground (arith, k)

  count_all_known :
      (format : ℕ → String) (os : List Order) (v : StatsView)
      → All (λ o. is_known o.status ≡ true) os
      → count_all st (map (to_response format) os) v
        ≡ raised (in_state is_pending os) (in_state is_confirmed os) (in_state is_canceled os) v
  unfolding count_all to_response
  count_all_known format [] v k = ground arith
  count_all_known format (o ∷ os) v (k, rest) =
      count_all_known format os (counted (normalize_status st (status_text o.status)) v) rest
      ∙ (ap (raised (in_state is_pending os) (in_state is_confirmed os) (in_state is_canceled os))
            (ap (λ s. counted s v) (rest_normalized o.status k) ∙ counted_known o.status v k)
          ∙ raised_twice (in_state is_pending os) (in_state is_confirmed os)
              (in_state is_canceled os) (one_if (is_pending o.status))
              (one_if (is_confirmed o.status)) (one_if (is_canceled o.status)) v)

  counts_total :
      (os : List Order)
      → All (λ o. is_known o.status ≡ true) os
      → in_state is_pending os + in_state is_confirmed os + in_state is_canceled os ≡ length os
  counts_total [] k = omega arith
  counts_total (o ∷ os) (k, rest) = let ih = counts_total os rest in ground arith

  -- For orders in the states that the code names, the statistics show how many there are in all and
  -- in each state, and the three counts add up to the total.
  pub stats_exact :
      (format : ℕ → String) (os : List Order)
      → All (λ o. is_known o.status ≡ true) os
      → let v = stats_partial st (map (to_response format) os, none) in
        (v.total ≡ length os)
        × (v.pending ≡ in_state is_pending os)
        × (v.confirmed ≡ in_state is_confirmed os)
        × (v.canceled ≡ in_state is_canceled os)
        × (v.pending + v.confirmed + v.canceled ≡ v.total)
        × (v.error ≡ none)
  unfolding stats_partial
  stats_exact format os k =
      let list = map (to_response format) os in
      let zero_view : StatsView = record {
        total = length list;
        pending = 0;
        confirmed = 0;
        canceled = 0;
        error = none;
      } in
      let e = count_all_known format os zero_view k in
      let added = counts_total os k in
      let size = length-map (to_response format) os in
      rw e (size, omega arith, omega arith, omega arith, omega (arith, added, size), refl)
