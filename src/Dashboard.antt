-- ===== src/Dashboard.antt =====
-- example/orders-service/dashboard.go: the page's partials, which read the orders through the REST
-- and the gRPC API. `Strings` is what it uses of the package strings. Times are nanoseconds since
-- the epoch.
pub mod Forms
pub mod Panels
pub mod Accepted
pub mod Pages
pub mod Rows
pub mod Reading
pub mod Ordering
mod Tests
mod PageTests
use gokit_services.Common.{
  ℕ, suc, ◌+◌, ◌-◌, ◌*◌, ◌/◌, String, str_eq, Bool, true, false, ◌||◌, Option, none, some, List, [],
  ◌∷◌, map, length, ltb, leb, if◌then◌else◌,
}
use gokit_services.Common.Int.{ℤ, pos, negsuc, add_int64}
use gokit_services.Common.Errors.{Err, Result, ok, err, errorf, text}
use gokit_services.Orders.{Item}
use gokit_services.Orders.Api.{
  CreateRequest, OrderResponse, ProtoOrder, ProtoStatus, unspecified, proto_pending,
  proto_confirmed, proto_canceled,
}

pub record Strings : Type 0 where
  pub upper : String → String
  pub lower : String → String
  pub trim_prefix : String → String → String

unfoldable pub normalize_status : Strings → String → String
normalize_status st s = st.lower (st.trim_prefix (st.upper s) "ORDER_STATUS_")

-- How long ago, as the row shows it; the text is left out.
pub data RelTime : Type 0 where
  just_now : RelTime
  seconds_ago minutes_ago hours_ago : ℕ → RelTime

-- `time.Since`
abbrev pub since : ℕ → ℕ → ℤ
since now t = if leb t now then pos (now - t) else negsuc (t - now - 1)

-- The float64 of `Hours` is taken as exact.
unfoldable pub rel_time : ℤ → RelTime
rel_time (negsuc n) = just_now
rel_time (pos d) =
    if ltb d 1_000_000_000
    then just_now
    else (if ltb d 60_000_000_000
        then seconds_ago (d / 1_000_000_000)
        else (if ltb d 3_600_000_000_000
            then minutes_ago (d / 60_000_000_000)
            else hours_ago (d / 3_600_000_000_000)))

-- A time in a row: as the API sent it, or relative.
pub data Shown : Type 0 where
  as_sent : String → Shown
  relative : RelTime → Shown

pub record DashboardOrder : Type 0 where
  pub id : String
  pub customer_id : String
  pub status : String
  pub qty : ℤ
  pub created_at : Shown
  pub created_ts : String

-- The loops that add the quantities to an int64.
unfoldable pub total_qty : ℤ → List Item → ℤ
total_qty q [] = q
total_qty q (it ∷ items) = total_qty (add_int64 q it.quantity) items

-- `parse` is `time.Parse` of an RFC3339 time.
unfoldable pub rest_row : Strings → (String → Option ℕ) → ℕ → OrderResponse → DashboardOrder
unfolding normalize_status rel_time total_qty
rest_row st parse now o = record {
  id = o.id;
  customer_id = o.customer_id;
  status = normalize_status st o.status;
  qty = total_qty (pos 0) o.items;
  created_at = elim (parse o.created_at) [
    | none ↦ as_sent o.created_at
    | some t ↦ relative (rel_time (since now t))
  ];
  created_ts = o.created_at;
}

-- `String()` of the generated enumeration.
abbrev pub proto_name : ProtoStatus → String
proto_name unspecified = "ORDER_STATUS_UNSPECIFIED"
proto_name proto_pending = "ORDER_STATUS_PENDING"
proto_name proto_confirmed = "ORDER_STATUS_CONFIRMED"
proto_name proto_canceled = "ORDER_STATUS_CANCELED"

-- `format` prints a time as RFC3339.
unfoldable pub grpc_row : Strings → (ℕ → String) → ℕ → ProtoOrder → DashboardOrder
unfolding normalize_status rel_time total_qty
grpc_row st format now o =
    let created = o.created_at_unix * 1_000_000_000 in
    record {
      id = o.id;
      customer_id = o.customer_id;
      status = normalize_status st (proto_name o.status);
      qty = total_qty (pos 0) o.items;
      created_at = relative (rel_time (since now created));
      created_ts = format created;
    }

pub data Source : Type 0 where
  source_rest source_grpc : Source

-- An error as the page shows it: a text, or the format of a `%v` and the error in it.
pub data Message : Type 0 where
  plain : String → Message
  about : String → Err → Message

-- `ordersPanelView`
pub record OrdersPanel : Type 0 where
  pub source : Source
  pub rows : List DashboardOrder
  pub error : Option Message

-- `handleOrdersPartial`, by what `fetchOrders` returns.
unfoldable pub orders_partial :
    Strings → (String → Option ℕ) → ℕ → Result (List OrderResponse) → OrdersPanel
unfolding rest_row
orders_partial st parse now (err e) = record {
  source = source_rest;
  rows = [];
  error = some (about "REST API error: %v" e);
}
orders_partial st parse now (ok list) = record {
  source = source_rest;
  rows = map (rest_row st parse now) list;
  error = none;
}

-- `handleGRPCOrdersPartial`, by whether there is a connection and what `ListOrders` returns.
unfoldable pub grpc_orders_partial :
    Strings → (ℕ → String) → ℕ → Bool → Result (List ProtoOrder) → OrdersPanel
unfolding grpc_row
grpc_orders_partial st format now false listed = record {
  source = source_grpc;
  rows = [];
  error = some (plain "gRPC client has not connected yet — try again in a moment");
}
grpc_orders_partial st format now true (err e) = record {
  source = source_grpc;
  rows = [];
  error = some (about "gRPC error: %v" e);
}
grpc_orders_partial st format now true (ok list) = record {
  source = source_grpc;
  rows = map (grpc_row st format now) list;
  error = none;
}

pub record StatsView : Type 0 where
  pub total : ℕ
  pub pending : ℕ
  pub confirmed : ℕ
  pub canceled : ℕ
  pub error : Option Message

abbrev pub counted : String → StatsView → StatsView
counted s v =
    if str_eq s "pending"
    then record v { pending = suc v.pending }
    else (if str_eq s "confirmed"
        then record v { confirmed = suc v.confirmed }
        else (if str_eq s "canceled" then record v { canceled = suc v.canceled } else v))

unfoldable pub count_all : Strings → List OrderResponse → StatsView → StatsView
unfolding normalize_status
count_all st [] v = v
count_all st (o ∷ list) v = count_all st list (counted (normalize_status st o.status) v)

-- `handleStatsPartial`, by the list and the error that `fetchOrders` returns; with an error the list
-- may be one that was decoded in part.
unfoldable pub stats_partial : Strings → List OrderResponse × Option Err → StatsView
unfolding count_all
stats_partial st (list, failed) = count_all st list (record {
  total = length list;
  pending = 0;
  confirmed = 0;
  canceled = 0;
  error = elim failed [ none ↦ none | some e ↦ some (about "REST API error: %v" e) ];
})
