-- ===== src/Orders/Postgres/Table.antt =====
-- What PostgreSQL does in the statements of example/orders-service/store/postgres.go: the content of
-- the table of orders as a function of the id, and the last number of the sequence.
use mathlib.Core.Option
use gokit_services.Common.{
  ℕ, ◌+◌, ◌*◌, ◌/◌, ◌^◌, ◌<◌, ◌≡◌, refl, ap, ◌∙◌, arith, String, str_eq, Bool, true, false, Option,
  none, some, List, [], ◌∷◌, map, if◌then◌else◌,
}
use gokit_services.Common.Errors.{Err, Result, ok, err, errors_is, is_no_rows}
use gokit_services.Common.Assoc.{Assoc, lookup, insert, lookup-insert}
use gokit_services.Orders.{Order, Item, pending, confirmed, canceled}
use gokit_services.Orders.Memory.{InMemoryStore, is_pending, is_stale, cancel_one}
use gokit_services.Orders.Memory.Lookups.{contains, stale_at, Distinct}
use gokit_services.Orders.Postgres.{Sql, Row}

abbrev pub Content : Type 0
Content = String → Option Order

-- A time as a TIMESTAMPTZ holds it.
abbrev pub micros : ℕ → ℕ
micros t = t / 1000 * 1000

abbrev pub put : String → Order → Content → Content
put id o t k = if str_eq id k then some o else t k

abbrev pub swept : ℕ → ℕ → Option Order → Option Order
swept now cutoff none = none
swept now cutoff (some o) =
    if is_stale cutoff o then some (record o { status = canceled; updated_at = now }) else some o

abbrev pub is_swept : ℕ → Option Order → Bool
is_swept cutoff none = false
is_swept cutoff (some o) = is_stale cutoff o

-- Putting an order under its id is what a map does.
pub put-insert :
    (i j k : String) (o p : Order) (t : Content) (m : Assoc Order)
    → i ≡ j
    → o ≡ p
    → t k ≡ lookup k m
    → put i o t k ≡ lookup k (insert j p m)
put-insert i j k o p t m same equal rest =
    rw (same, equal, lookup-insert j k p m) (ap (λ x. if str_eq j k then some p else x) rest)

pub swept_alike :
    (now cutoff : ℕ) (o : Option Order) → swept now cutoff o ≡ Option.map (cancel_one now cutoff) o
swept_alike now cutoff none = refl
swept_alike now cutoff (some o) = ground arith

pub is_swept_alike : (cutoff : ℕ) (o : Option Order) → is_swept cutoff o ≡ stale_at cutoff o
is_swept_alike cutoff none = refl
is_swept_alike cutoff (some o) = refl

-- A row of the table that stands for the order, and the rows of some orders.
module _ {D J : Type 0} (sql : Sql D J) where
  abbrev pub Holds : Row J → Order → Type 0
  Holds row o =
      (row.id ≡ o.id)
      × (row.customer_id ≡ o.customer_id)
      × (sql.unmarshal row.items ≡ ok o.items)
      × (row.status ≡ o.status)
      × (row.created_at ≡ o.created_at)
      × (row.updated_at ≡ o.updated_at)

  abbrev pub Scanned : List (Result (Row J)) → List Order → Type 0
  Scanned [] [] = Unit
  Scanned (r ∷ rs) (o ∷ os) = (row : Row J) × (r ≡ ok row) × Holds row o × Scanned rs os
  Scanned _ _ = ⊥

-- Each statement by what it answers. `clock` is the server's `now()` for the next statement, in whole
-- microseconds, to which a bound time is cut. An INSERT takes the next number of the sequence, which is a
-- bigint; SELECT and EXISTS read; an UPDATE affects the rows that its condition chooses, and returns
-- their ids. `decodes`: items that were encoded as JSON are decoded as they were.
pub record IsPostgres {D J : Type 0} (sql : Sql D J) (format_id : ℕ → String) : Type 0 where
  pub table : D → Content
  pub issued : D → ℕ
  pub clock : D → ℕ
  pub decodes : (items : List Item) (j : J) → sql.marshal items ≡ ok j → sql.unmarshal j ≡ ok items
  pub inserts :
      (customer_id : String) (j : J) (d : D) (id : String) (made changed : ℕ) (items : List Item)
      → (sql.insert_order customer_id j pending d).0 ≡ ok (id, made, changed)
      → sql.unmarshal j ≡ ok items
      → let e = (sql.insert_order customer_id j pending d).1 in
        let o : Order = record {
          id = id;
          customer_id = customer_id;
          items = items;
          status = pending;
          created_at = made;
          updated_at = changed;
        } in
        (issued d + 1 < 2 ^ 63)
        × (issued e ≡ issued d + 1)
        × (id ≡ format_id (issued e))
        × (made ≡ clock d)
        × (changed ≡ clock d)
        × ((k : String) → table e k ≡ put id o (table d) k)
  pub selects :
      (id : String) (d : D) (row : Row J)
      → (sql.select_order id d).0 ≡ ok row
      → (o : Order) × (table d id ≡ some o) × Holds sql row o
  pub selects_none :
      (id : String) (d : D) (e : Err)
      → (sql.select_order id d).0 ≡ err e
      → errors_is is_no_rows e ≡ true
      → table d id ≡ none
  pub select_keeps :
      (id : String) (d : D)
      → let e = (sql.select_order id d).1 in
        ((k : String) → table e k ≡ table d k) × (issued e ≡ issued d)
  pub selects_all :
      (d : D) (scans : List (Result (Row J)))
      → (sql.select_orders d).0 ≡ ok (record { scans = scans; rows_err = none })
      → (m : Assoc Order) × Distinct m
        × ((k : String) → lookup k m ≡ table d k)
        × Scanned sql scans (map (λ e. e.1) m)
  pub select_all_keeps :
      (d : D)
      → let e = (sql.select_orders d).1 in
        ((k : String) → table e k ≡ table d k) × (issued e ≡ issued d)
  pub update_hits :
      (id : String) (d : D) (n : ℕ)
      → (sql.update_status confirmed id pending d).0 ≡ ok n
      → 0 < n
      → let e = (sql.update_status confirmed id pending d).1 in
        (o : Order) × (table d id ≡ some o)
        × (is_pending o.status ≡ true)
        × ((k : String)
            → table e k
              ≡ put id (record o { status = confirmed; updated_at = clock d }) (table d) k)
        × (issued e ≡ issued d)
  pub update_misses :
      (id : String) (d : D)
      → (sql.update_status confirmed id pending d).0 ≡ ok 0
      → let e = (sql.update_status confirmed id pending d).1 in
        ((k : String) → table e k ≡ table d k)
        × (issued e ≡ issued d)
        × ((o : Order) → table d id ≡ some o → is_pending o.status ≡ false)
  pub exists_keeps :
      (id : String) (d : D)
      → let e = (sql.exists_order id d).1 in
        ((k : String) → table e k ≡ table d k) × (issued e ≡ issued d)
  pub exists_true :
      (id : String) (d : D)
      → (sql.exists_order id d).0 ≡ ok true
      → (o : Order) × (table d id ≡ some o)
  pub exists_false :
      (id : String) (d : D) → (sql.exists_order id d).0 ≡ ok false → table d id ≡ none
  pub sweeps :
      (cutoff : ℕ) (d : D) (scans : List (Result String))
      → (sql.update_stale canceled pending cutoff d).0
        ≡ ok (record { scans = scans; rows_err = none })
      → let e = (sql.update_stale canceled pending cutoff d).1 in
        (ids : List String) × (scans ≡ map ok ids)
        × ((k : String) → contains k ids ≡ is_swept (micros cutoff) (table d k))
        × ((k : String) → table e k ≡ swept (clock d) (micros cutoff) (table d k))
        × (issued e ≡ issued d)

module _ {D J : Type 0} {sql : Sql D J} {format_id : ℕ → String}
    (law : IsPostgres sql format_id) where
  -- The table and the map in memory hold the same, and have issued as many ids.
  pub record Simulates (d : D) (s : InMemoryStore) : Type 0 where
    pub same : (k : String) → law.table d k ≡ lookup k s.orders
    pub counted : law.issued d ≡ s.next_id
    pub distinct : Distinct s.orders

  pub kept-Simulates :
      (d e : D) (s : InMemoryStore)
      → ((k : String) → law.table e k ≡ law.table d k)
      → law.issued e ≡ law.issued d
      → Simulates d s
      → Simulates e s
  kept-Simulates d e s t n v = record {
    same = λ k. t k ∙ v.same k;
    counted = n ∙ v.counted;
    distinct = v.distinct;
  }
