-- ===== src/Orders/Postgres.antt =====
-- example/orders-service/store/postgres.go: the store over PostgreSQL. The database and the JSON
-- codec are parameters: `D` is the state of the database, its clock included, `J` the type of a JSON
-- column. Each statement is one operation of `Sql`, with the arguments that the code binds: the times
-- are the server's `now()`, and the caller's time plays no part.
pub mod Table
pub mod Reads
pub mod Writes
pub mod Confirm
pub mod Observed
mod Listed
mod Tests
use gokit_services.Common.{
  ℕ, String, Bool, true, false, Option, none, some, List, [], ◌∷◌, ltb, if◌then◌else◌,
}
use gokit_services.Common.Errors.{
  Err, errorf, wrap, text, Result, ok, err, wrapped, errors_is, is_no_rows, order_not_found,
}
use gokit_services.Orders.{Order, Item, Status, pending, confirmed, canceled, Store}

pub record Row (J : Type 0) : Type 0 where
  pub id : String
  pub customer_id : String
  pub items : J
  pub status : Status
  pub created_at : ℕ
  pub updated_at : ℕ

-- `pgx.Rows`: what the scan of each row gives, and `rows.Err()` after the last.
pub record Rows (A : Type 0) : Type 0 where
  pub scans : List (Result A)
  pub rows_err : Option Err

-- `connected` says whether the provider has a pool. A statement gives what the code reads of its
-- answer: the columns that an insert returns, a row, the rows affected, and so on.
pub record Sql (D J : Type 0) : Type 0 where
  pub connected : D → Bool
  pub create_table : D → Option Err × D
  pub insert_order : String → J → Status → D → Result (String × ℕ × ℕ) × D
  pub select_order : String → D → Result (Row J) × D
  pub select_orders : D → Result (Rows (Row J)) × D
  pub update_status : Status → String → Status → D → Result ℕ × D
  pub exists_order : String → D → Result Bool × D
  pub update_stale : Status → Status → ℕ → D → Result (Rows String) × D
  pub marshal : List Item → Result J
  pub unmarshal : J → Result (List Item)

abbrev pub store_not_connected : Err
store_not_connected = errorf "postgres store: database not connected" []

module _ {D J : Type 0} (sql : Sql D J) where
  with_items : Row J → Result (List Item) → Result Order
  with_items row (err e) = err (wrap "unmarshal items for order %s: %w" (text row.id ∷ []) e)
  with_items row (ok items) = ok (record {
    id = row.id;
    customer_id = row.customer_id;
    items = items;
    status = row.status;
    created_at = row.created_at;
    updated_at = row.updated_at;
  })

  unfoldable pub scan_order : Result (Row J) → Result Order
  unfolding with_items
  scan_order (err e) = err (wrap "scan order row: %w" [] e)
  scan_order (ok row) = with_items row (sql.unmarshal row.items)

  unfoldable pub ensure_schema : D → Option Err × D
  ensure_schema d = elim (sql.connected d) [
    | false ↦ (some store_not_connected, d)
    | true ↦
        let (r, d') = sql.create_table d in
        elim r [
          | none ↦ (none, d')
          | some e ↦ (some (wrap "postgres store: ensure schema: %w" [] e), d')
        ]
  ]

  inserted : String → List Item → Result (String × ℕ × ℕ) × D → Result Order × D
  inserted customer items (err e, d) = (err (wrap "postgres store: create: %w" [] e), d)
  inserted customer items (ok (id, created_at, updated_at), d) = (
    ok (record {
      id = id;
      customer_id = customer;
      items = items;
      status = pending;
      created_at = created_at;
      updated_at = updated_at;
    }),
    d,
  )

  unfoldable pub create : ℕ → String → List Item → D → Result Order × D
  unfolding inserted
  create now customer items d = elim (sql.connected d) [
    | false ↦ (err store_not_connected, d)
    | true ↦ elim (sql.marshal items) [
      | err e ↦ (err (wrap "postgres store: marshal items: %w" [] e), d)
      | ok j ↦ inserted customer items (sql.insert_order customer j pending d)
    ]
  ]

  abbrev get_error : Err → Err
  get_error e =
      if errors_is is_no_rows e then order_not_found else wrap "postgres store: get: %w" [] e

  read_one : Result Order × D → Result Order × D
  read_one (ok o, d) = (ok o, d)
  read_one (err e, d) = (err (get_error e), d)

  unfoldable pub get : ℕ → String → D → Result Order × D
  unfolding scan_order read_one
  get now id d = elim (sql.connected d) [
    | false ↦ (err store_not_connected, d)
    | true ↦ let (r, d') = sql.select_order id d in read_one (scan_order r, d')
  ]

  -- The loop over the rows, with `format` for an error of a scan and `last` for one of `rows.Err()`.
  unfoldable pub collect :
      {A B : Type 0}
      → (Result A → Result B)
      → String
      → String
      → Option Err
      → List (Result A)
      → Result (List B)
  collect scan format last none [] = ok []
  collect scan format last (some e) [] = err (wrap last [] e)
  collect scan format last done (r ∷ rs) =
      let rest = collect scan format last done rs in
      elim (scan r) [
        | err e ↦ err (wrap format [] e)
        | ok b ↦ elim rest [ err e ↦ err e | ok bs ↦ ok (b ∷ bs) ]
      ]

  unfoldable pub list : ℕ → D → Result (List Order) × D
  unfolding collect scan_order
  list now d = elim (sql.connected d) [
    | false ↦ (err store_not_connected, d)
    | true ↦
        let (r, d') = sql.select_orders d in
        elim r [
          | err e ↦ (err (wrap "postgres store: list: %w" [] e), d')
          | ok rows ↦ (
            collect scan_order "postgres store: list scan: %w" "postgres store: list: %w"
                rows.rows_err rows.scans,
            d',
          )
        ]
  ]

  existing : Result Bool × D → Result Bool × D
  existing (err e, d) = (err (wrap "postgres store: confirm existence check: %w" [] e), d)
  existing (ok true, d) = (ok false, d)
  existing (ok false, d) = (err order_not_found, d)

  updated : String → Result ℕ × D → Result Bool × D
  unfolding existing
  updated id (err e, d) = (err (wrap "postgres store: confirm: %w" [] e), d)
  updated id (ok n, d) = if ltb 0 n then (ok true, d) else existing (sql.exists_order id d)

  unfoldable pub confirm_pending : ℕ → String → D → Result Bool × D
  unfolding updated
  confirm_pending now id d = elim (sql.connected d) [
    | false ↦ (err store_not_connected, d)
    | true ↦ updated id (sql.update_status confirmed id pending d)
  ]

  unfoldable pub cancel_stale_pending : ℕ → ℕ → D → Result (List String) × D
  unfolding collect
  cancel_stale_pending now cutoff d = elim (sql.connected d) [
    | false ↦ (err store_not_connected, d)
    | true ↦
        let (r, d') = sql.update_stale canceled pending cutoff d in
        elim r [
          | err e ↦ (err (wrap "postgres store: cancel stale: %w" [] e), d')
          | ok rows ↦ (
            collect (λ r. r) "postgres store: cancel stale scan: %w"
                "postgres store: cancel stale: %w" rows.rows_err rows.scans,
            d',
          )
        ]
  ]

  -- `PostgresStore` as a `Store`.
  unfoldable pub postgres_store : Store D
  unfolding create get list confirm_pending cancel_stale_pending
  postgres_store = record {
    create = create;
    get = get;
    list = list;
    confirm_pending = confirm_pending;
    cancel_stale_pending = cancel_stale_pending;
  }
