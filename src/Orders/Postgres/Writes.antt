-- ===== src/Orders/Postgres/Writes.antt =====
-- `Create` and `CancelStalePending` of example/orders-service/store/postgres.go against the
-- in-memory store.
use gokit_services.Common.{
  ℕ, ◌+◌, ◌%◌, ◌^◌, ◌≡◌, refl, sym, ap, ◌∙◌, inl, inr, String, true, false, Bool-cases, Option,
  none, some, List, [], ◌∷◌, map, arith,
}
use gokit_services.Common.Errors.{Err, Result, ok, err, Result-cases}
use gokit_services.Common.Assoc.{lookup}
use gokit_services.Orders.{Item, pending, canceled}
use gokit_services.Orders.Memory.{InMemoryStore, stale_ids}
use gokit_services.Orders.Memory
use gokit_services.Orders.Memory.Lookups.{lookup-cancel_entries, contains-stale_ids}
use gokit_services.Orders.Memory.Invariant.{Distinct-insert, Distinct-cancel_entries}
use gokit_services.Orders.Asking.{in_domain, SameIds}
use gokit_services.Orders.Postgres.{Sql, Rows, create, inserted, collect, cancel_stale_pending}
use gokit_services.Orders.Postgres.Table.{
  micros, put-insert, swept, swept_alike, is_swept, is_swept_alike, IsPostgres, Simulates,
}
use gokit_services.Orders.Postgres.Reads.{collect_broken}

module _ {D J : Type 0} (sql : Sql D J) where
  create_asked :
      (now : ℕ) (customer_id : String) (items : List Item) (d : D) (j : J)
      → sql.connected d ≡ true
      → sql.marshal items ≡ ok j
      → create sql now customer_id items d
        ≡ inserted sql customer_id items (sql.insert_order customer_id j pending d)
  unfolding create
  create_asked now customer_id items d j c h = rw (c, h, create) refl

  create_unasked :
      (now : ℕ) (customer_id : String) (items : List Item) (d : D) (e : Err)
      → sql.marshal items ≡ err e
      → in_domain (create sql now customer_id items d).0 ≡ false
  unfolding create
  create_unasked now customer_id items d e h = elim (Bool-cases (sql.connected d)) [
    | inl c ↦ rw (c, h, create) refl
    | inr c ↦ rw (c, create) refl
  ]

  create_closed :
      (now : ℕ) (customer_id : String) (items : List Item) (d : D)
      → sql.connected d ≡ false
      → in_domain (create sql now customer_id items d).0 ≡ false
  unfolding create
  create_closed now customer_id items d c = rw (c, create) refl

  cancel_answered :
      (now cutoff : ℕ) (d : D) (rows : Rows String)
      → sql.connected d ≡ true
      → (sql.update_stale canceled pending cutoff d).0 ≡ ok rows
      → cancel_stale_pending sql now cutoff d ≡ (
        collect sql
            (λ r. r)
            "postgres store: cancel stale scan: %w"
            "postgres store: cancel stale: %w"
            rows.rows_err
            rows.scans,
        (sql.update_stale canceled pending cutoff d).1,
      )
  unfolding cancel_stale_pending
  cancel_answered now cutoff d rows c h = rw (c, h, cancel_stale_pending) refl

  cancel_failed :
      (now cutoff : ℕ) (d : D) (e : Err)
      → (sql.update_stale canceled pending cutoff d).0 ≡ err e
      → in_domain (cancel_stale_pending sql now cutoff d).0 ≡ false
  unfolding cancel_stale_pending
  cancel_failed now cutoff d e h = elim (Bool-cases (sql.connected d)) [
    | inl c ↦ rw (c, h, cancel_stale_pending) refl
    | inr c ↦ rw (c, cancel_stale_pending) refl
  ]

  cancel_closed :
      (now cutoff : ℕ) (d : D)
      → sql.connected d ≡ false
      → in_domain (cancel_stale_pending sql now cutoff d).0 ≡ false
  unfolding cancel_stale_pending
  cancel_closed now cutoff d c = rw (c, cancel_stale_pending) refl

  collected_ids :
      (ids : List String) (format last : String)
      → collect sql (λ r. r) format last none (map ok ids) ≡ ok ids
  unfolding collect
  collected_ids [] format last = refl
  collected_ids (id ∷ ids) format last = rw (collect, collected_ids ids format last) refl

module _ {D J : Type 0} {sql : Sql D J} {format_id : ℕ → String}
    (law : IsPostgres sql format_id) where
  insert_answer :
      (customer_id : String) (items : List Item) (d : D) (j : J) (s : InMemoryStore)
      (r : Result (String × ℕ × ℕ))
      → sql.marshal items ≡ ok j
      → (sql.insert_order customer_id j pending d).0 ≡ r
      → Simulates law d s
      → let e = (sql.insert_order customer_id j pending d).1 in
        let answer = inserted sql customer_id items (r, e) in
        let told = Memory.create format_id (law.clock d) customer_id items s in
        in_domain answer.0 ≡ true → (answer.0 ≡ told.0) × Simulates law answer.1 told.1
  unfolding inserted Memory.create
  insert_answer customer_id items d j s (ok (id, made, changed)) m h v a =
      let e = (sql.insert_order customer_id j pending d).1 in
      let (room, next, named, at, later, t) =
        law.inserts customer_id j d id made changed items h (law.decodes items j m) in
      let issued : law.issued e ≡ (s.next_id + 1) % 2 ^ 64 = omega (arith, room, next, v.counted) in
      let known : id ≡ format_id ((s.next_id + 1) % 2 ^ 64) = named ∙ ap format_id issued in
      (
        rw (known, at, later) refl,
        record {
          same = λ k.
              t k
              ∙ put-insert id (format_id ((s.next_id + 1) % 2 ^ 64)) k _ _ (law.table d) s.orders
                  known (rw (known, at, later) refl) (v.same k);
          counted = issued;
          distinct = Distinct-insert (format_id ((s.next_id + 1) % 2 ^ 64)) _ s.orders v.distinct;
        },
      )
  insert_answer customer_id items d j s (err x) m h v a = absurd (ground (arith, a))

  -- `Create` answers with the order that the in-memory store makes at the server's time, unless it fails.
  pub create_refines :
      (now : ℕ) (customer_id : String) (items : List Item) (d : D) (s : InMemoryStore)
      → Simulates law d s
      → let answer = create sql now customer_id items d in
        let told = Memory.create format_id (law.clock d) customer_id items s in
        in_domain answer.0 ≡ true → (answer.0 ≡ told.0) × Simulates law answer.1 told.1
  create_refines now customer_id items d s v a = elim (Bool-cases (sql.connected d)) [
    | inr c ↦ cc (create_closed sql now customer_id items d c, a)
    | inl c ↦ elim (Result-cases (sql.marshal items)) [
      | inr (e, m) ↦ cc (create_unasked sql now customer_id items d e m, a)
      | inl (j, m) ↦
          let asked = create_asked sql now customer_id items d j c m in
          rw asked (
            insert_answer customer_id items d j s _ m refl v
              (sym (ap (λ r. in_domain r.0) asked) ∙ a))
    ]
  ]

  sweep_answer :
      (cutoff : ℕ) (d : D) (s : InMemoryStore) (scans : List (Result String)) (last : Option Err)
      (format what : String)
      → (sql.update_stale canceled pending cutoff d).0
        ≡ ok (record { scans = scans; rows_err = last })
      → Simulates law d s
      → let answer = collect sql (λ r. r) format what last scans in
        let told = Memory.cancel_stale_pending (law.clock d) (micros cutoff) s in
        in_domain answer ≡ true
        → SameIds answer told.0
          × Simulates law (sql.update_stale canceled pending cutoff d).1 told.1
  unfolding Memory.cancel_stale_pending
  sweep_answer cutoff d s scans none format what h v a =
      let (ids, read, chosen, t, n) = law.sweeps cutoff d scans h in
      rw (read, collected_ids sql ids format what)
        (
          λ k.
              chosen k
              ∙ (ap (is_swept (micros cutoff)) (v.same k)
                  ∙ (is_swept_alike (micros cutoff) (lookup k s.orders)
                      ∙ sym (contains-stale_ids (micros cutoff) k s.orders v.distinct))),
          record {
            same = λ k.
                t k
                ∙ (ap (swept (law.clock d) (micros cutoff)) (v.same k)
                    ∙ (swept_alike (law.clock d) (micros cutoff) (lookup k s.orders)
                        ∙ sym (lookup-cancel_entries (law.clock d) (micros cutoff) k s.orders)));
            counted = n ∙ v.counted;
            distinct = Distinct-cancel_entries (law.clock d) (micros cutoff) s.orders v.distinct;
          },
        )
  sweep_answer cutoff d s scans (some e) format what h v a =
      cc (collect_broken sql (λ r. r) format what e scans, a)

  -- `CancelStalePending` answers with the ids that the in-memory store gives at the server's
  -- time for the cutoff in whole microseconds, unless it fails.
  pub cancel_refines :
      (now cutoff : ℕ) (d : D) (s : InMemoryStore)
      → Simulates law d s
      → let answer = cancel_stale_pending sql now cutoff d in
        let told = Memory.cancel_stale_pending (law.clock d) (micros cutoff) s in
        in_domain answer.0 ≡ true → SameIds answer.0 told.0 × Simulates law answer.1 told.1
  cancel_refines now cutoff d s v a = elim (Bool-cases (sql.connected d)) [
    | inr c ↦ cc (cancel_closed sql now cutoff d c, a)
    | inl c ↦ elim (Result-cases (sql.update_stale canceled pending cutoff d).0) [
      | inr (e, h) ↦ cc (cancel_failed sql now cutoff d e h, a)
      | inl (rows, h) ↦
          let done = cancel_answered sql now cutoff d rows c h in
          rw done (
            sweep_answer cutoff d s rows.scans rows.rows_err "postgres store: cancel stale scan: %w"
              "postgres store: cancel stale: %w" h v (sym (ap (λ r. in_domain r.0) done) ∙ a))
    ]
  ]
