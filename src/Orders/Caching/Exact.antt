-- ===== src/Orders/Caching/Exact.antt =====
-- Reads and mutations through a coherent cache in front of the in-memory store.
use mathlib.Core.Option
use gokit_services.Common.{
  ℕ, ◌≡◌, refl, sym, ap, subst, ◌∙◌, String, str_eq, Bool, true, false, Option, none, some, List,
  [], ◌∷◌, map, arith, inl, inr, Option-cases, Bool-cases,
}
use gokit_services.Common.Errors.{Err, Result, ok, err, order_not_found, wrapped, Result-cases}
use gokit_services.Common.Assoc.{lookup}
use gokit_services.Orders.{Order}
use gokit_services.Orders.Memory.{
  InMemoryStore, in_memory, get as memory_get, confirm_pending as memory_confirm,
  cancel_stale_pending as memory_cancel, cancel_one, stale_ids,
}
use gokit_services.Orders.Memory.Lookups.{
  contains, Distinct, stale_at, contains-stale_ids, lookup-cancel_entries, confirm_elsewhere,
}
use gokit_services.Orders.Caching.{
  Redis, cache_key, caching_store, get, cached, read_through, invalidate, confirm_pending,
  after_confirm, cancel_stale_pending,
}
use gokit_services.Orders.Caching.Coherence.{
  IsLawful, IsCoherent, IsCoherent-shrinks, IsCoherent-del, IsCoherent-fill,
}

get_missing :
    (id : String) (s : InMemoryStore)
    → lookup id s.orders ≡ none
    → memory_get id s ≡ err order_not_found
unfolding memory_get
get_missing id s e = rw (e, memory_get)

get_found :
    (id : String) (s : InMemoryStore) (o : Order)
    → lookup id s.orders ≡ some o
    → memory_get id s ≡ ok o
unfolding memory_get
get_found id s o e = rw (e, memory_get)

not_head : (id k : String) → contains k (id ∷ []) ≡ false → str_eq id k ≡ false
not_head id k h = ground arith

not_stale :
    (now cutoff : ℕ) (o : Option Order)
    → stale_at cutoff o ≡ false
    → Option.map (cancel_one now cutoff) o ≡ o
not_stale now cutoff none h = refl
not_stale now cutoff (some o) h = ground arith

confirm_error_keeps :
    (now : ℕ) (id : String) (s : InMemoryStore) (e : Err)
    → (memory_confirm now id s).0 ≡ err e
    → (memory_confirm now id s).1 ≡ s
unfolding memory_confirm
confirm_error_keeps now id s e h = ground arith

module _ {C B : Type 0} (format_id : ℕ → String) (redis : Redis C B) (law : IsLawful redis)
    (ttl : ℕ) where
  -- The read is right, and leaves a coherent cache and the same store.
  pub record IsExact (id : String) (s : InMemoryStore) (r : Result Order × (InMemoryStore × C))
      : Type 0 where
    pub result : r.0 ≡ wrapped "caching store: get: %w" (memory_get id s)
    pub store : r.1.0 ≡ s
    pub coherent : IsCoherent redis law s r.1.1

  read_through-IsExact :
      (now : ℕ) (id : String) (live : Bool) (s : InMemoryStore) (c : C) (o : Option Order)
      → lookup id s.orders ≡ o
      → IsCoherent redis law s c
      → IsExact id s (read_through (in_memory format_id) redis ttl now id live s c)
  unfolding read_through in_memory
  read_through-IsExact now id live s c none e v =
      let told = ap (wrapped "caching store: get: %w") (get_missing id s e) in
      rw (get_missing id s e, read_through)
        (record { result = sym told; store = refl; coherent = v })
  read_through-IsExact now id true s c (some o) e v =
      let told = ap (wrapped "caching store: get: %w") (get_found id s o e) in
      rw (get_found id s o e, read_through)
        (record {
          result = sym told;
          store = refl;
          coherent = IsCoherent-fill redis law s c id o format_id ttl e v;
        })
  read_through-IsExact now id false s c (some o) e v =
      let told = ap (wrapped "caching store: get: %w") (get_found id s o e) in
      rw (get_found id s o e, read_through)
        (record { result = sym told; store = refl; coherent = v })

  cached_shrinks :
      (id : String) (s : InMemoryStore) (c : C)
      → IsCoherent redis law s c
      → IsCoherent redis law s (cached (in_memory format_id) redis ttl id c).1
  unfolding cached
  cached_shrinks id s c v = elim (Bool-cases (redis.connected c)) [
    | inr b ↦ rw (b, cached) v
    | inl b ↦
        let kept =
          IsCoherent-shrinks redis law s c (redis.get (cache_key id) c).1
            (λ j x. law.get_keeps (cache_key id) j c x) v in
        elim (Result-cases (redis.get (cache_key id) c).0) [
          | inl (bytes, g) ↦ rw (b, cached) (rw g kept)
          | inr (e, g) ↦ rw (b, cached) (rw g kept)
        ]
  ]

  cached_hit :
      (id : String) (s : InMemoryStore) (c : C) (o : Order)
      → IsCoherent redis law s c
      → (cached (in_memory format_id) redis ttl id c).0 ≡ some o
      → lookup id s.orders ≡ some o
  unfolding cached
  cached_hit id s c o v h = elim (Bool-cases (redis.connected c)) [
    | inr b ↦ cc (rw (b, cached) at h)
    | inl b ↦
        let hit = rw (b, cached) at h in
        elim (Result-cases (redis.get (cache_key id) c).0) [
          | inl (bytes, g) ↦
              v.agrees id bytes o (law.get_reads (cache_key id) c bytes g) (rw g at hit)
          | inr (e, g) ↦ cc (rw g at hit)
        ]
  ]

  -- As long as the cache is coherent, a read through it is exact: it returns what the in-memory store
  -- returns for the id (its error wrapped), leaves the store alone, and leaves a coherent cache, also
  -- when filling the cache fails.
  pub get-IsExact :
      (now : ℕ) (id : String) (s : InMemoryStore) (c : C)
      → IsCoherent redis law s c
      → IsExact id s ((caching_store (in_memory format_id) redis ttl).get now id (s, c))
  unfolding caching_store get
  get-IsExact now id s c v = elim (Option-cases (cached (in_memory format_id) redis ttl id c).0) [
    | inl e ↦
        rw (e, get)
          (read_through-IsExact now id (redis.connected c) s
            (cached (in_memory format_id) redis ttl id c).1 (lookup id s.orders) refl
            (cached_shrinks id s c v))
    | inr (o, e) ↦
        let told =
          ap (wrapped "caching store: get: %w") (get_found id s o (cached_hit id s c o v e)) in
        rw (e, get) (record { result = sym told; store = refl; coherent = cached_shrinks id s c v })
  ]

  -- There is a client, and it deletes the keys of the ids.
  abbrev pub Deletes : List String → C → Type 0
  Deletes ids c = (redis.connected c ≡ true) × ((redis.del (map cache_key ids) c).0 ≡ none)

  invalidate-IsCoherent :
      (s t : InMemoryStore) (c : C) (ids : List String)
      → Deletes ids c
      → ((k : String) → contains k ids ≡ false → lookup k t.orders ≡ lookup k s.orders)
      → IsCoherent redis law s c
      → IsCoherent redis law t (invalidate (in_memory format_id) redis ttl ids c)
  unfolding invalidate
  invalidate-IsCoherent s t c [] (live, gone) same v =
      rw (live, invalidate) (record { agrees = λ id b o e u. same id refl ∙ v.agrees id b o e u })
  invalidate-IsCoherent s t c (id ∷ ids) (live, gone) same v =
      rw (live, invalidate) (IsCoherent-del redis law s t c (id ∷ ids) gone same v)

  after_confirm-IsCoherent :
      (id : String) (s : InMemoryStore) (c : C) (r : Result Bool × InMemoryStore)
      → Deletes (id ∷ []) c
      → ((e : Err) → r.0 ≡ err e → r.1 ≡ s)
      → ((k : String) → str_eq id k ≡ false → lookup k r.1.orders ≡ lookup k s.orders)
      → IsCoherent redis law s c
      → let q = after_confirm (in_memory format_id) redis ttl id r c in
        (q.0 ≡ wrapped "caching store: confirm: %w" r.0)
        × (q.1.0 ≡ r.1)
        × IsCoherent redis law q.1.0 q.1.1
  unfolding after_confirm
  after_confirm-IsCoherent id s c (err e, t) d keeps same v =
      (refl, refl, subst (λ u. IsCoherent redis law u c) (sym (keeps e refl)) v)
  after_confirm-IsCoherent id s c (ok b, t) d keeps same v =
      (refl, refl, invalidate-IsCoherent s t c (id ∷ []) d (λ k h. same k (not_head id k h)) v)

  -- `ConfirmPending` through a coherent cache has the result (its errors wrapped) and the effect that
  -- it has on the in-memory store, and leaves the cache coherent if Redis is there and deletes the key
  -- of the order.
  pub confirm-IsCoherent :
      (now : ℕ) (id : String) (s : InMemoryStore) (c : C)
      → Deletes (id ∷ []) c
      → IsCoherent redis law s c
      → let r = (caching_store (in_memory format_id) redis ttl).confirm_pending now id (s, c) in
        (r.0 ≡ wrapped "caching store: confirm: %w" (memory_confirm now id s).0)
        × (r.1.0 ≡ (memory_confirm now id s).1)
        × IsCoherent redis law r.1.0 r.1.1
  unfolding caching_store in_memory confirm_pending
  confirm-IsCoherent now id s c d v =
      after_confirm-IsCoherent id s c (memory_confirm now id s) d
        (λ e h. confirm_error_keeps now id s e h) (λ k h. confirm_elsewhere now id k s h) v

  -- `CancelStalePending` through a coherent cache has the result and the effect that it has on the
  -- in-memory store, and leaves the cache coherent, if Redis is there and deletes the keys of the
  -- canceled orders, and the keys of the store are distinct.
  pub cancel-IsCoherent :
      (now cutoff : ℕ) (s : InMemoryStore) (c : C)
      → Distinct s.orders
      → Deletes (stale_ids cutoff s.orders) c
      → IsCoherent redis law s c
      → let r =
          (caching_store (in_memory format_id) redis ttl).cancel_stale_pending now cutoff (s, c) in
        (r.0 ≡ ok (stale_ids cutoff s.orders))
        × (r.1.0 ≡ (memory_cancel now cutoff s).1)
        × IsCoherent redis law r.1.0 r.1.1
  unfolding caching_store cancel_stale_pending in_memory
  cancel-IsCoherent now cutoff s c u d v = (
    refl,
    refl,
    invalidate-IsCoherent s (memory_cancel now cutoff s).1 c (stale_ids cutoff s.orders) d
        (λ k h.
          lookup-cancel_entries now cutoff k s.orders
          ∙ not_stale now cutoff (lookup k s.orders)
              (sym (contains-stale_ids cutoff k s.orders u) ∙ h))
        v,
  )
