-- ===== src/Orders/Caching/Reads.antt =====
-- Reads through the cache: what an outage costs, and when a read is exact.
use gokit_services.Common.{
  ℕ, ◌≡◌, refl, ap, ◌∙◌, String, Bool, false, none, inl, inr, ◌⊎◌, Bool-cases,
}
use gokit_services.Common.Errors.{Err, ok, err, wrapped, Result-cases}
use gokit_services.Orders.{Store}
use gokit_services.Orders.Caching.{Redis, cache_key, caching_store, get, cached, read_through}

module _ {S C B : Type 0} (inner : Store S) (redis : Redis C B) (ttl : ℕ) where
  read_through_lem :
      (now : ℕ) (id : String) (live : Bool) (s : S) (c : C)
      → ((read_through inner redis ttl now id live s c).0
          ≡ wrapped "caching store: get: %w" (inner.get now id s).0)
        × ((read_through inner redis ttl now id live s c).1.0 ≡ (inner.get now id s).1)
  unfolding read_through
  read_through_lem now id live s c = elim (Result-cases (inner.get now id s).0) [
    | inl (o, e) ↦ rw (e, read_through) (refl, refl)
    | inr (x, e) ↦ rw (e, read_through) (refl, refl)
  ]

  -- The cache cannot answer: there is no client, or Redis fails or lacks the key, or the bytes under
  -- the key cannot be decoded.
  abbrev pub CannotAnswer : String → C → Type 0
  CannotAnswer id c =
      (redis.connected c ≡ false)
      ⊎ (((e : Err) × ((redis.get (cache_key id) c).0 ≡ err e))
          ⊎ ((bytes : B) × ((redis.get (cache_key id) c).0 ≡ ok bytes)
              × (redis.unmarshal bytes ≡ none)))

  cached_miss : (id : String) (c : C) → CannotAnswer id c → (cached inner redis ttl id c).0 ≡ none
  unfolding cached
  cached_miss id c (inl h) = rw (h, cached)
  cached_miss id c (inr (inl (e, h))) = elim (Bool-cases (redis.connected c)) [
    | inl b ↦ rw (b, cached) (rw h)
    | inr b ↦ rw (b, cached)
  ]
  cached_miss id c (inr (inr (bytes, h, u))) = elim (Bool-cases (redis.connected c)) [
    | inl b ↦ rw (b, cached) (rw h u)
    | inr b ↦ rw (b, cached)
  ]

  get-miss :
      (now : ℕ) (id : String) (s : S) (c : C)
      → (cached inner redis ttl id c).0 ≡ none
      → get inner redis ttl now id (s, c)
        ≡ read_through inner redis ttl now id (redis.connected c) s (cached inner redis ttl id c).1
  unfolding get
  get-miss now id s c h = rw (h, get)

  -- A Redis outage never breaks a read: when the cache cannot answer, `Get` has the result of the
  -- store inside, its errors wrapped, and leaves that store as the inner read does, whether or not
  -- the cache can then be filled.
  get_outage :
      (now : ℕ) (id : String) (s : S) (c : C)
      → CannotAnswer id c
      → (((caching_store inner redis ttl).get now id (s, c)).0
          ≡ wrapped "caching store: get: %w" (inner.get now id s).0)
        × (((caching_store inner redis ttl).get now id (s, c)).1.0 ≡ (inner.get now id s).1)
  unfolding caching_store
  get_outage now id s c h =
      let m = get-miss now id s c (cached_miss id c h) in
      let (r, t) = read_through_lem now id (redis.connected c) s (cached inner redis ttl id c).1 in
      (ap (λ x. x.0) m ∙ r, ap (λ x. x.1.0) m ∙ t)
