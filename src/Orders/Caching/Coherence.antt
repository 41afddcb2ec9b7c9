-- ===== src/Orders/Caching/Coherence.antt =====
-- A cache in front of the in-memory store tells what the store holds, as long as Redis keeps its
-- promises and no invalidation fails.
use text.Mathlib.TextLemmas.{append_cancel_left}
use gokit_services.Common.{
  ℕ, ◌≡◌, refl, sym, ap, ◌∙◌, String, eq_iff, false, Option, none, some, List, [], ◌∷◌, map, arith,
  inl, inr, ◌⊎◌,
}
use gokit_services.Common.Errors.{ok, Result-cases}
use gokit_services.Common.Assoc.{lookup}
use gokit_services.Orders.{Order}
use gokit_services.Orders.Memory.{InMemoryStore, in_memory}
use gokit_services.Orders.Memory.Lookups.{contains}
use gokit_services.Orders.Caching.{Redis, cache_key, fill}

-- What Redis and the codec document. `entries` is what is stored under a key.
pub record IsLawful {C B : Type 0} (redis : Redis C B) : Type 0 where
  pub entries : C → String → Option B
  pub get_reads : (k : String) (c : C) (b : B) → (redis.get k c).0 ≡ ok b → entries c k ≡ some b
  pub get_keeps :
      (k j : String) (c : C) (b : B) → entries (redis.get k c).1 j ≡ some b → entries c j ≡ some b
  pub set_writes :
      (k j : String) (b x : B) (ttl : ℕ) (c : C)
      → entries (redis.set k b ttl c).1 j ≡ some x
      → ((j ≡ k) × (x ≡ b)) ⊎ (entries c j ≡ some x)
  pub del_removes :
      (ks : List String) (j : String) (c : C) (x : B)
      → (redis.del ks c).0 ≡ none
      → entries (redis.del ks c).1 j ≡ some x
      → (contains j ks ≡ false) × (entries c j ≡ some x)
  pub decodes : (o : Order) (b : B) → redis.marshal o ≡ ok b → redis.unmarshal b ≡ some o

cache_key-injective : (i j : String) → cache_key i ≡ cache_key j → i ≡ j
unfolding cache_key
cache_key-injective i j h = append_cancel_left "order:" i j h

contains-cache_key :
    (id : String) (ids : List String)
    → contains (cache_key id) (map cache_key ids) ≡ false
    → contains id ids ≡ false
contains-cache_key id [] h = refl
contains-cache_key id (k ∷ ks) h = ground (
  arith,
  contains-cache_key id ks,
  eq_iff k id,
  eq_iff (cache_key k) (cache_key id),
  ap cache_key {x = k} {y = id},
)

module _ {C B : Type 0} (redis : Redis C B) (law : IsLawful redis) where
  -- What the cache holds under an order's key is what the store holds under its id.
  pub record IsCoherent (s : InMemoryStore) (c : C) : Type 0 where
    pub agrees :
        (id : String) (b : B) (o : Order)
        → law.entries c (cache_key id) ≡ some b
        → redis.unmarshal b ≡ some o
        → lookup id s.orders ≡ some o

  -- The entries can only have gone.
  pub IsCoherent-shrinks :
      (s : InMemoryStore) (c d : C)
      → ((j : String) (b : B) → law.entries d j ≡ some b → law.entries c j ≡ some b)
      → IsCoherent s c
      → IsCoherent s d
  IsCoherent-shrinks s c d h v = record {
    agrees = λ id b o e u. v.agrees id b o (h (cache_key id) b e) u;
  }

  -- A successful `Del` of the keys of `ids` leaves no entry for them, and adds none.
  pub IsCoherent-del :
      (s t : InMemoryStore) (c : C) (ids : List String)
      → (redis.del (map cache_key ids) c).0 ≡ none
      → ((k : String) → contains k ids ≡ false → lookup k t.orders ≡ lookup k s.orders)
      → IsCoherent s c
      → IsCoherent t (redis.del (map cache_key ids) c).1
  IsCoherent-del s t c ids ok_del same v = record {
    agrees = λ id b o e u.
        let (gone, old) = law.del_removes (map cache_key ids) (cache_key id) c b ok_del e in
        same id (contains-cache_key id ids gone) ∙ v.agrees id b o old u;
  }

  filled :
      (s : InMemoryStore) (c : C) (id : String) (o : Order) (k : String) (bytes b : B) (p : Order)
      → redis.marshal o ≡ ok bytes
      → lookup id s.orders ≡ some o
      → IsCoherent s c
      → redis.unmarshal b ≡ some p
      → ((cache_key k ≡ cache_key id) × (b ≡ bytes)) ⊎ (law.entries c (cache_key k) ≡ some b)
      → lookup k s.orders ≡ some p
  filled s c id o k bytes b p m found v u (inl (e, f)) =
      let same : k ≡ id = cache_key-injective k id e in
      ap (λ j. lookup j s.orders) same
      ∙ found
      ∙ sym (law.decodes o bytes m)
      ∙ ap redis.unmarshal (sym f)
      ∙ u
  filled s c id o k bytes b p m found v u (inr old) = v.agrees k b p old u

  pub IsCoherent-fill :
      (s : InMemoryStore) (c : C) (id : String) (o : Order) (format_id : ℕ → String) (ttl : ℕ)
      → lookup id s.orders ≡ some o
      → IsCoherent s c
      → IsCoherent s (fill (in_memory format_id) redis ttl id o c)
  unfolding fill
  IsCoherent-fill s c id o format_id ttl found v = elim (Result-cases (redis.marshal o)) [
    | inr (x, m) ↦ rw (m, fill) v
    | inl (bytes, m) ↦
        rw (m, fill)
          (record {
            agrees = λ k b p e u.
                filled s c id o k bytes b p m found v u
                  (law.set_writes (cache_key id) (cache_key k) bytes b ttl c e);
          })
  ]
