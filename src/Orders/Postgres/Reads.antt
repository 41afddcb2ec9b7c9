-- ===== src/Orders/Postgres/Reads.antt =====
-- `Get` and `List` of example/orders-service/store/postgres.go against the in-memory store.
use gokit_services.Common.{
  ℕ, ◌≡◌, refl, sym, ap, ◌∙◌, inl, inr, String, true, false, Bool-cases, Option, none, some, List,
  [], ◌∷◌, map, arith,
}
use gokit_services.Common.Errors.{
  Err, Result, ok, err, Result-cases, errors_is, is_no_rows, order_not_found,
}
use gokit_services.Common.Assoc.{lookup}
use gokit_services.Orders.{Order}
use gokit_services.Orders.Memory.{InMemoryStore}
use gokit_services.Orders.Memory
use gokit_services.Orders.Memory.Listing.{Distinct-Perm}
use gokit_services.Orders.Asking.{in_domain, SameOrders}
use gokit_services.Orders.Postgres.{
  Sql, Row, Rows, get, list, collect, scan_order, read_one, with_items,
}
use gokit_services.Orders.Postgres.Table.{Holds, Scanned, IsPostgres, Simulates, kept-Simulates}

module _ {D J : Type 0} (sql : Sql D J) where
  get_open :
      (now : ℕ) (id : String) (d : D)
      → sql.connected d ≡ true
      → let r = sql.select_order id d in get sql now id d ≡ read_one sql (scan_order sql r.0, r.1)
  unfolding get
  get_open now id d c = rw (c, get) refl

  get_closed :
      (now : ℕ) (id : String) (d : D)
      → sql.connected d ≡ false
      → in_domain (get sql now id d).0 ≡ false
  unfolding get
  get_closed now id d c = rw (c, get) refl

  -- A row that holds an order is scanned as the order.
  scan-Holds : (row : Row J) (o : Order) → Holds sql row o → scan_order sql (ok row) ≡ ok o
  unfolding scan_order with_items
  scan-Holds row o (i, c, u, s, m, t) = rw (u, i, c, s, m, t) refl

  read_missing :
      (e : Err) (d : D)
      → errors_is is_no_rows e ≡ true
      → read_one sql (scan_order sql (err e), d) ≡ (err order_not_found, d)
  unfolding scan_order read_one errors_is
  read_missing e d h = ground (arith, h)

  read_failed :
      (e : Err) (d : D)
      → errors_is is_no_rows e ≡ false
      → in_domain (read_one sql (scan_order sql (err e), d)).0 ≡ false
  unfolding scan_order read_one errors_is
  read_failed e d h = ground (arith, h)

  collected :
      (scans : List (Result (Row J))) (os : List Order) (format last : String)
      → Scanned sql scans os
      → collect sql (scan_order sql) format last none scans ≡ ok os
  unfolding collect
  collected [] [] format last h = refl
  collected [] (o ∷ os) format last h = elim h [ ]
  collected (r ∷ rs) [] format last h = elim h [ ]
  collected (r ∷ rs) (o ∷ os) format last (row, e, h, rest) =
      let first = scan-Holds row o h in
      let ih = collected rs os format last rest in rw (e, collect, first, ih) refl

  -- An error after the last row is an error of the loop.
  pub collect_broken :
      {A B : Type 0} (scan : Result A → Result B) (format last : String) (e : Err)
      (scans : List (Result A))
      → in_domain (collect sql scan format last (some e) scans) ≡ false
  unfolding collect
  collect_broken scan format last e [] = refl
  collect_broken scan format last e (r ∷ rs) =
      let ih = collect_broken scan format last e rs in ground (arith, ih)

  list_answered :
      (now : ℕ) (d : D) (rows : Rows (Row J))
      → sql.connected d ≡ true
      → (sql.select_orders d).0 ≡ ok rows
      → list sql now d ≡ (
        collect sql
            (scan_order sql)
            "postgres store: list scan: %w"
            "postgres store: list: %w"
            rows.rows_err
            rows.scans,
        (sql.select_orders d).1,
      )
  unfolding list
  list_answered now d rows c h = rw (c, h, list) refl

  list_failed :
      (now : ℕ) (d : D) (e : Err)
      → (sql.select_orders d).0 ≡ err e
      → in_domain (list sql now d).0 ≡ false
  unfolding list
  list_failed now d e h = elim (Bool-cases (sql.connected d)) [
    | inl c ↦ rw (c, h, list) refl
    | inr c ↦ rw (c, list) refl
  ]

  list_closed : (now : ℕ) (d : D) → sql.connected d ≡ false → in_domain (list sql now d).0 ≡ false
  unfolding list
  list_closed now d c = rw (c, list) refl

module _ {D J : Type 0} {sql : Sql D J} {format_id : ℕ → String}
    (law : IsPostgres sql format_id) where
  memory_get :
      (id : String) (s : InMemoryStore) (o : Order)
      → lookup id s.orders ≡ some o
      → Memory.get id s ≡ ok o
  unfolding Memory.get
  memory_get id s o h = rw (h, Memory.get) refl

  memory_missing :
      (id : String) (s : InMemoryStore)
      → lookup id s.orders ≡ none
      → Memory.get id s ≡ err order_not_found
  unfolding Memory.get
  memory_missing id s h = rw (h, Memory.get) refl

  read_answer :
      (id : String) (d e : D) (s : InMemoryStore) (r : Result (Row J))
      → (sql.select_order id d).0 ≡ r
      → Simulates law d s
      → in_domain (read_one sql (scan_order sql r, e)).0 ≡ true
      → read_one sql (scan_order sql r, e) ≡ (Memory.get id s, e)
  unfolding read_one
  read_answer id d e s (ok row) h v a =
      let (o, found, holds) = law.selects id d row h in
      rw (scan-Holds sql row o holds, memory_get id s o (sym (v.same id) ∙ found)) refl
  read_answer id d e s (err x) h v a = elim (Bool-cases (errors_is is_no_rows x)) [
    | inl m ↦
        rw (memory_missing id s (sym (v.same id) ∙ law.selects_none id d x h m))
          (read_missing sql x e m)
    | inr m ↦ cc (read_failed sql x e m, a)
  ]

  -- `Get` answers what the in-memory store answers, unless its error is not that of a missing order.
  pub get_refines :
      (now : ℕ) (id : String) (d : D) (s : InMemoryStore)
      → Simulates law d s
      → in_domain (get sql now id d).0 ≡ true
      → ((get sql now id d).0 ≡ Memory.get id s) × Simulates law (get sql now id d).1 s
  get_refines now id d s v a = elim (Bool-cases (sql.connected d)) [
    | inl c ↦
        let (x, e) = sql.select_order id d in
        let asked = get_open sql now id d c in
        let done =
          asked ∙ read_answer id d e s x refl v (sym (ap (λ r. in_domain r.0) asked) ∙ a) in
        let (t, n) = law.select_keeps id d in rw done (refl, kept-Simulates law d e s t n v)
    | inr c ↦ cc (get_closed sql now id d c, a)
  ]

  list_answer :
      (d : D) (s : InMemoryStore) (scans : List (Result (Row J))) (last : Option Err)
      (format what : String)
      → (sql.select_orders d).0 ≡ ok (record { scans = scans; rows_err = last })
      → Simulates law d s
      → in_domain (collect sql (scan_order sql) format what last scans) ≡ true
      → SameOrders (collect sql (scan_order sql) format what last scans) (ok (Memory.list s))
  unfolding Memory.list
  list_answer d s scans none format what h v a =
      let (m, distinct, holds, read) = law.selects_all d scans h in
      rw (collected sql scans (map (λ e. e.1) m) format what read)
        (Distinct-Perm m s.orders distinct v.distinct (λ k. holds k ∙ v.same k))
  list_answer d s scans (some e) format what h v a =
      cc (collect_broken sql (scan_order sql) format what e scans, a)

  -- `List` answers with the orders of the in-memory store, perhaps in another order, unless it fails.
  pub list_refines :
      (now : ℕ) (d : D) (s : InMemoryStore)
      → Simulates law d s
      → in_domain (list sql now d).0 ≡ true
      → SameOrders (list sql now d).0 (ok (Memory.list s)) × Simulates law (list sql now d).1 s
  list_refines now d s v a = elim (Bool-cases (sql.connected d)) [
    | inr c ↦ cc (list_closed sql now d c, a)
    | inl c ↦ elim (Result-cases (sql.select_orders d).0) [
      | inr (e, h) ↦ cc (list_failed sql now d e h, a)
      | inl (rows, h) ↦
          let done = list_answered sql now d rows c h in
          let (t, n) = law.select_all_keeps d in
          rw done (
            list_answer d s rows.scans rows.rows_err "postgres store: list scan: %w"
                "postgres store: list: %w" h v (sym (ap (λ r. in_domain r.0) done) ∙ a),
            kept-Simulates law d (sql.select_orders d).1 s t n v,
          )
    ]
  ]
