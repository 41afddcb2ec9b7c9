-- ===== src/Orders/Postgres/Confirm.antt =====
-- `ConfirmPending` of example/orders-service/store/postgres.go against the in-memory store.
use gokit_services.Common.{
  ℕ, zero, suc, ◌≡◌, refl, sym, ap, ◌∙◌, inl, inr, String, Bool, true, false, Bool-cases, none,
  some, arith,
}
use gokit_services.Common.Errors.{Result, ok, err, order_not_found}
use gokit_services.Common.Assoc.{lookup, insert}
use gokit_services.Orders.{Order, pending, confirmed}
use gokit_services.Orders.Memory.{InMemoryStore, is_pending}
use gokit_services.Orders.Memory
use gokit_services.Orders.Memory.Invariant.{Distinct-insert}
use gokit_services.Orders.Asking.{in_domain}
use gokit_services.Orders.Postgres.{Sql, confirm_pending, updated, existing}
use gokit_services.Orders.Postgres.Table.{put-insert, IsPostgres, Simulates, kept-Simulates}

memory_found :
    (now : ℕ) (id : String) (s : InMemoryStore) (o : Order)
    → lookup id s.orders ≡ some o
    → Memory.confirm_pending now id s ≡ Memory.confirm_found now id s o
unfolding Memory.confirm_pending
memory_found now id s o e = rw (e, Memory.confirm_pending) refl

memory_settled :
    (now : ℕ) (id : String) (s : InMemoryStore) (o : Order)
    → lookup id s.orders ≡ some o
    → is_pending o.status ≡ false
    → Memory.confirm_pending now id s ≡ (ok false, s)
unfolding Memory.confirm_found
memory_settled now id s o e p = memory_found now id s o e ∙ ground (arith, p)

memory_pending :
    (now : ℕ) (id : String) (s : InMemoryStore) (o : Order)
    → lookup id s.orders ≡ some o
    → is_pending o.status ≡ true
    → Memory.confirm_pending now id s ≡ (
      ok true,
      record s { orders = insert id (record o { status = confirmed; updated_at = now }) s.orders },
    )
unfolding Memory.confirm_found
memory_pending now id s o e p = memory_found now id s o e ∙ ground (arith, p)

memory_missing :
    (now : ℕ) (id : String) (s : InMemoryStore)
    → lookup id s.orders ≡ none
    → Memory.confirm_pending now id s ≡ (err order_not_found, s)
unfolding Memory.confirm_pending
memory_missing now id s e = rw (e, Memory.confirm_pending) refl

module _ {D J : Type 0} (sql : Sql D J) where
  existing_at :
      (r : Result Bool × D) (x : Result Bool) → r.0 ≡ x → existing sql r ≡ existing sql (x, r.1)
  existing_at (y, d) x e = ap (λ z. existing sql (z, d)) e

  updated_hit : (id : String) (e : D) (n : ℕ) → updated sql id (ok (suc n), e) ≡ (ok true, e)
  unfolding updated
  updated_hit id e n = ground arith

  updated_miss :
      (id : String) (e : D) → updated sql id (ok 0, e) ≡ existing sql (sql.exists_order id e)
  unfolding updated
  updated_miss id e = ground arith

  confirm_asked :
      (now : ℕ) (id : String) (d : D)
      → sql.connected d ≡ true
      → confirm_pending sql now id d ≡ updated sql id (sql.update_status confirmed id pending d)
  unfolding confirm_pending
  confirm_asked now id d c = rw (c, confirm_pending) refl

  confirm_closed :
      (now : ℕ) (id : String) (d : D)
      → sql.connected d ≡ false
      → in_domain (confirm_pending sql now id d).0 ≡ false
  unfolding confirm_pending
  confirm_closed now id d c = rw (c, confirm_pending) refl

module _ {D J : Type 0} {sql : Sql D J} {format_id : ℕ → String}
    (law : IsPostgres sql format_id) where
  -- The answer and the state after it are those of the in-memory store.
  abbrev AnswersAs : Result Bool × D → Result Bool × InMemoryStore → Type 0
  AnswersAs answer told = (answer.0 ≡ told.0) × Simulates law answer.1 told.1

  existing_answer :
      (now : ℕ) (id : String) (d : D) (s : InMemoryStore) (x : Result Bool)
      → (sql.exists_order id d).0 ≡ x
      → Simulates law d s
      → ((o : Order) → law.table d id ≡ some o → is_pending o.status ≡ false)
      → in_domain (existing sql (x, (sql.exists_order id d).1)).0 ≡ true
      → AnswersAs (existing sql (x, (sql.exists_order id d).1)) (Memory.confirm_pending now id s)
  unfolding existing
  existing_answer now id d s (ok true) h v settled a =
      let (o, found) = law.exists_true id d h in
      let (t, n) = law.exists_keeps id d in
      rw (memory_settled now id s o (sym (v.same id) ∙ found) (settled o found))
        (refl, kept-Simulates law d (sql.exists_order id d).1 s t n v)
  existing_answer now id d s (ok false) h v settled a =
      let (t, n) = law.exists_keeps id d in
      rw (memory_missing now id s (sym (v.same id) ∙ law.exists_false id d h))
        (refl, kept-Simulates law d (sql.exists_order id d).1 s t n v)
  existing_answer now id d s (err e) h v settled a = absurd (ground (arith, a))

  updated_answer :
      (id : String) (d : D) (s : InMemoryStore) (x : Result ℕ)
      → (sql.update_status confirmed id pending d).0 ≡ x
      → Simulates law d s
      → let e = (sql.update_status confirmed id pending d).1 in
        in_domain (updated sql id (x, e)).0 ≡ true
        → AnswersAs (updated sql id (x, e)) (Memory.confirm_pending (law.clock d) id s)
  unfolding updated
  updated_answer id d s (ok (suc n)) h v a =
      let e = (sql.update_status confirmed id pending d).1 in
      let (o, found, p, t, c) = law.update_hits id d (suc n) h (omega arith) in
      rw (updated_hit sql id e n, memory_pending (law.clock d) id s o (sym (v.same id) ∙ found) p)
        (
          refl,
          record {
            same = λ k. t k ∙ put-insert id id k _ _ (law.table d) s.orders refl refl (v.same k);
            counted = c ∙ v.counted;
            distinct = Distinct-insert id _ s.orders v.distinct;
          },
        )
  updated_answer id d s (ok zero) h v a =
      let e = (sql.update_status confirmed id pending d).1 in
      let (t, n, settled) = law.update_misses id d h in
      let asked = updated_miss sql id e ∙ existing_at sql (sql.exists_order id e) _ refl in
      rw asked (
        existing_answer (law.clock d) id e s _ refl (kept-Simulates law d e s t n v)
          (λ o found. settled o (sym (t id) ∙ found)) (sym (ap (λ r. in_domain r.0) asked) ∙ a))
  updated_answer id d s (err e) h v a = absurd (ground (arith, a))

  -- `ConfirmPending` answers what the in-memory store answers at the server's time for a pending, a settled and a missing
  -- order, and has the same effect, unless its error is not that of a missing order.
  pub confirm_refines :
      (now : ℕ) (id : String) (d : D) (s : InMemoryStore)
      → Simulates law d s
      → in_domain (confirm_pending sql now id d).0 ≡ true
      → AnswersAs (confirm_pending sql now id d) (Memory.confirm_pending (law.clock d) id s)
  confirm_refines now id d s v a = elim (Bool-cases (sql.connected d)) [
    | inr c ↦ cc (confirm_closed sql now id d c, a)
    | inl c ↦
        let asked = confirm_asked sql now id d c in
        rw asked (updated_answer id d s _ refl v (sym (ap (λ r. in_domain r.0) asked) ∙ a))
  ]
