-- ===== src/Orders/Postgres/Listed.antt =====
-- A database whose table is a list and whose clock goes on by ten microseconds with each order that is
-- written, for the tests.
use gokit_services.Common.{
  ℕ, ◌+◌, ◌^◌, ◌<◌, ◌≡◌, refl, sym, ap, subst, ◌∙◌, String, Bool, true, false, Option, none, some,
  List, [], ◌∷◌, map, ltb, arith, if◌then◌else◌,
}
use gokit_services.Common.Errors.{Err, Result, ok, err, no_rows}
use gokit_services.Common.Assoc.{Assoc, lookup, insert}
use gokit_services.Orders.{Order, Item, pending, confirmed}
use gokit_services.Orders.Memory.{is_pending, cancel_entries, stale_ids}
use gokit_services.Orders.Memory.Lookups.{Distinct, contains-stale_ids, lookup-cancel_entries}
use gokit_services.Orders.Memory.Invariant.{Distinct-insert, Distinct-cancel_entries}
use gokit_services.Orders.Postgres.{Sql, Row}
use gokit_services.Orders.Postgres.Table.{
  micros, put, put-insert, swept_alike, is_swept_alike, Holds, Scanned, IsPostgres,
}
use gokit_services.Orders.Shop.{tally}

pub record Db : Type 0 where
  pub entries : Assoc Order
  pub last : ℕ
  pub clock : ℕ
  pub distinct : Distinct entries

abbrev with_order : String → Order → Db → Db
with_order id o d = record {
  entries = insert id o d.entries;
  last = d.last;
  clock = d.clock + 10_000;
  distinct = Distinct-insert id o d.entries d.distinct;
}

abbrev new_order : ℕ → String → List Item → ℕ → Order
new_order now customer_id items n = record {
  id = tally n;
  customer_id = customer_id;
  items = items;
  status = pending;
  created_at = now;
  updated_at = now;
}

abbrev insert_if : Bool → String → List Item → Db → Result (String × ℕ × ℕ) × Db
insert_if false customer_id items d = (err no_rows, d)
insert_if true customer_id items d = (
  ok (tally (d.last + 1), d.clock, d.clock),
  record (with_order (tally (d.last + 1)) (new_order d.clock customer_id items (d.last + 1)) d) {
    last = d.last + 1;
  },
)

abbrev row_of : Order → Row (List Item)
row_of o = record {
  id = o.id;
  customer_id = o.customer_id;
  items = o.items;
  status = o.status;
  created_at = o.created_at;
  updated_at = o.updated_at;
}

abbrev found_row : Option Order → Result (Row (List Item))
found_row none = err no_rows
found_row (some o) = ok (row_of o)

abbrev update_row : String → Option Order → Db → Result ℕ × Db
update_row id none d = (ok 0, d)
update_row id (some o) d =
    if is_pending o.status
    then (ok 1, with_order id (record o { status = confirmed; updated_at = d.clock }) d)
    else (ok 0, d)

abbrev is_there : Option Order → Bool
is_there none = false
is_there (some o) = true

abbrev pub listed : Sql Db (List Item)
listed = record {
  connected = λ d. true;
  create_table = λ d. (none, d);
  insert_order =
      λ customer_id items status d. insert_if (ltb (d.last + 1) (2 ^ 63)) customer_id items d;
  select_order = λ id d. (found_row (lookup id d.entries), d);
  select_orders =
      λ d. (ok (record { scans = map (λ e. ok (row_of e.1)) d.entries; rows_err = none }), d);
  update_status = λ new id old d. update_row id (lookup id d.entries) d;
  exists_order = λ id d. (ok (is_there (lookup id d.entries)), d);
  update_stale = λ new old cutoff d. (
    ok (record { scans = map ok (stale_ids (micros cutoff) d.entries); rows_err = none }),
    record {
      entries = cancel_entries d.clock (micros cutoff) d.entries;
      last = d.last;
      clock = d.clock + 10_000;
      distinct = Distinct-cancel_entries d.clock (micros cutoff) d.entries d.distinct;
    },
  );
  marshal = λ items. ok items;
  unmarshal = λ items. ok items;
}

abbrev Inserted : String → List Item → Db → String → ℕ → ℕ → List Item → Db → Type 0
Inserted customer_id j d id made changed items e =
    let o : Order = record {
      id = id;
      customer_id = customer_id;
      items = items;
      status = pending;
      created_at = made;
      updated_at = changed;
    } in
    (d.last + 1 < 2 ^ 63)
    × (e.last ≡ d.last + 1)
    × (id ≡ tally e.last)
    × (made ≡ d.clock)
    × (changed ≡ d.clock)
    × ((k : String) → lookup k e.entries ≡ put id o (λ i. lookup i d.entries) k)

pub listed_inserts :
    (b : Bool) (customer_id : String) (j : List Item) (d : Db) (id : String) (made changed : ℕ)
    (items : List Item)
    → ltb (d.last + 1) (2 ^ 63) ≡ b
    → (insert_if b customer_id j d).0 ≡ ok (id, made, changed)
    → ok j ≡ ok items
    → Inserted customer_id j d id made changed items (insert_if b customer_id j d).1
listed_inserts false customer_id j d id made changed items room h k = absurd (ground (arith, h))
listed_inserts true customer_id j d id made changed items room h k =
    let named : tally (d.last + 1) ≡ id = ground (arith, h) in
    let at : d.clock ≡ made = ground (arith, h) in
    let later : d.clock ≡ changed = ground (arith, h) in
    let same : j ≡ items = ground (arith, k) in
    (
      ground (arith, room),
      refl,
      sym named,
      sym at,
      sym later,
      λ i. sym (
          put-insert id (tally (d.last + 1)) i _ (new_order d.clock customer_id j (d.last + 1))
            (λ k'. lookup k' d.entries) d.entries (sym named)
            (rw (named, sym at, sym later, same) refl) refl),
    )

pub ok_injective : {A : Type 0} (a b : A) → ok a ≡ ok b → a ≡ b
ok_injective a b h = ground (arith, h)

pub listed_selects :
    (id : String) (d : Db) (row : Row (List Item)) (o : Option Order)
    → lookup id d.entries ≡ o
    → found_row o ≡ ok row
    → (p : Order) × (lookup id d.entries ≡ some p) × Holds listed row p
listed_selects id d row none l h = absurd (ground (arith, h))
listed_selects id d row (some o) l h =
    let same = ok_injective (row_of o) row h in
    (o, l, subst (λ r. Holds listed r o) same (refl, refl, refl, refl, refl, refl))

pub listed_selects_none :
    (id : String) (d : Db) (e : Err) (o : Option Order)
    → lookup id d.entries ≡ o
    → found_row o ≡ err e
    → lookup id d.entries ≡ none
listed_selects_none id d e none l h = l
listed_selects_none id d e (some o) l h = absurd (ground (arith, h))

pub rows_Scanned :
    (m : Assoc Order) → Scanned listed (map (λ e. ok (row_of e.1)) m) (map (λ e. e.1) m)
rows_Scanned [] = tt
rows_Scanned ((k, o) ∷ m) = (row_of o, refl, (refl, refl, refl, refl, refl, refl), rows_Scanned m)

pub update_hits :
    (id : String) (d : Db) (n : ℕ) (o : Option Order)
    → lookup id d.entries ≡ o
    → (update_row id o d).0 ≡ ok n
    → 0 < n
    → (p : Order) × (lookup id d.entries ≡ some p)
      × (is_pending p.status ≡ true)
      × ((k : String)
          → lookup k (update_row id o d).1.entries
            ≡ put id
                (record p { status = confirmed; updated_at = d.clock })
                (λ i. lookup i d.entries)
                k)
      × ((update_row id o d).1.last ≡ d.last)
update_hits id d n none l h k = absurd (ground (arith, h, k))
update_hits id d n (some o) l h k =
    let p : is_pending o.status ≡ true = ground (arith, h, k) in
    (
      o,
      l,
      p,
      rw p λ i. sym (put-insert id id i _ _ (λ j. lookup j d.entries) d.entries refl refl refl),
      ground (arith, p),
    )

pub update_misses :
    (id : String) (d : Db) (o : Option Order)
    → lookup id d.entries ≡ o
    → (update_row id o d).0 ≡ ok 0
    → ((k : String) → lookup k (update_row id o d).1.entries ≡ lookup k d.entries)
      × ((update_row id o d).1.last ≡ d.last)
      × ((p : Order) → lookup id d.entries ≡ some p → is_pending p.status ≡ false)
update_misses id d none l h = (λ k. refl, refl, λ p e. ground (arith, l, e))
update_misses id d (some o) l h =
    let p : is_pending o.status ≡ false = ground (arith, h) in
    (λ k. ground (arith, p), ground (arith, p), λ q e. ground (arith, p, l, e))

pub there_true :
    (id : String) (d : Db) (o : Option Order)
    → lookup id d.entries ≡ o
    → is_there o ≡ true
    → (p : Order) × (lookup id d.entries ≡ some p)
there_true id d none l h = absurd (ground (arith, h))
there_true id d (some o) l h = (o, l)

pub there_false :
    (id : String) (d : Db) (o : Option Order)
    → lookup id d.entries ≡ o
    → is_there o ≡ false
    → lookup id d.entries ≡ none
there_false id d none l h = l
there_false id d (some o) l h = absurd (ground (arith, h))

abbrev pub listed-IsPostgres : IsPostgres listed tally
listed-IsPostgres = record {
  table = λ d k. lookup k d.entries;
  issued = λ d. d.last;
  clock = λ d. d.clock;
  decodes = λ items j h. sym h;
  inserts = λ customer_id j d id made changed items h k.
      listed_inserts (ltb (d.last + 1) (2 ^ 63)) customer_id j d id made changed items refl h k;
  selects = λ id d row h. listed_selects id d row (lookup id d.entries) refl h;
  selects_none = λ id d e h k. listed_selects_none id d e (lookup id d.entries) refl h;
  select_keeps = λ id d. (λ k. refl, refl);
  selects_all = λ d scans h.
      let same = ok_injective _ _ h in
      (
        d.entries,
        d.distinct,
        λ k. refl,
        subst (λ r. Scanned listed r (map (λ e. e.1) d.entries)) (ap (λ r. r.scans) same)
            (rows_Scanned d.entries),
      );
  select_all_keeps = λ d. (λ k. refl, refl);
  update_hits = λ id d n h k. update_hits id d n (lookup id d.entries) refl h k;
  update_misses = λ id d h. update_misses id d (lookup id d.entries) refl h;
  exists_keeps = λ id d. (λ k. refl, refl);
  exists_true = λ id d h. there_true id d (lookup id d.entries) refl (ok_injective _ true h);
  exists_false = λ id d h. there_false id d (lookup id d.entries) refl (ok_injective _ false h);
  sweeps = λ cutoff d scans h. (
    stale_ids (micros cutoff) d.entries,
    sym (ap (λ r. r.scans) (ok_injective _ _ h)),
    λ k.
        contains-stale_ids (micros cutoff) k d.entries d.distinct
        ∙ sym (is_swept_alike (micros cutoff) (lookup k d.entries)),
    λ k.
        lookup-cancel_entries d.clock (micros cutoff) k d.entries
        ∙ sym (swept_alike d.clock (micros cutoff) (lookup k d.entries)),
    refl,
  );
}
