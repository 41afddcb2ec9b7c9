-- ===== src/Orders/Caching.antt =====
-- example/orders-service/store/caching.go: a read-through cache in front of a store. Redis and the
-- JSON codec are parameters: `C` is the state of Redis, `B` the type of the cached bytes.
pub mod Reads
pub mod Coherence
pub mod Exact
use Prim.Native.String.{◌++◌ as concat}
use gokit_services.Common.{ℕ, String, Bool, true, false, Option, none, some, List, [], ◌∷◌, map}
use gokit_services.Common.Errors.{Err, Result, ok, err, wrap, wrapped}
use gokit_services.Orders.{Order, Item, Store}

-- What the store uses of go-redis and encoding/json. `connected` says whether the provider has a
-- client; a missing key is one of the errors of `get`.
pub record Redis (C B : Type 0) : Type 0 where
  pub connected : C → Bool
  pub get : String → C → Result B × C
  pub set : String → B → ℕ → C → Option Err × C
  pub del : List String → C → Option Err × C
  pub marshal : Order → Result B
  pub unmarshal : B → Option Order

unfoldable pub cache_key : String → String
cache_key id = concat "order:" id

module _ {S C B : Type 0} (inner : Store S) (redis : Redis C B) (ttl : ℕ) where
  get_from_store : ℕ → String → S → Result Order × S
  get_from_store now id s =
      let (r, s') = inner.get now id s in (wrapped "caching store: get: %w" r, s')

  -- The lookup in the cache: an order, if the client is there, has the key, and can decode it.
  pub cached : String → C → Option Order × C
  cached id c = elim (redis.connected c) [
    | false ↦ (none, c)
    | true ↦
        let (r, c') = redis.get (cache_key id) c in
        elim r [ err e ↦ (none, c') | ok bytes ↦ (redis.unmarshal bytes, c') ]
  ]

  -- `c.Set` with what `json.Marshal` gives; a failure of either is ignored.
  unfoldable pub fill : String → Order → C → C
  fill id o c = elim (redis.marshal o) [
    | err e ↦ c
    | ok bytes ↦ (redis.set (cache_key id) bytes ttl c).1
  ]

  -- After a miss. `live` says whether there was a client when the call began.
  pub read_through : ℕ → String → Bool → S → C → Result Order × (S × C)
  unfolding get_from_store fill
  read_through now id live s c =
      let (r, s') = get_from_store now id s in
      elim r [
        | err e ↦ (err e, (s', c))
        | ok o ↦ (ok o, (s', elim live [ true ↦ fill id o c | false ↦ c ]))
      ]

  pub get : ℕ → String → S × C → Result Order × (S × C)
  unfolding cached read_through
  get now id (s, c) =
      let (hit, c') = cached id c in
      elim hit [ some o ↦ (ok o, (s, c')) | none ↦ read_through now id (redis.connected c) s c' ]

  -- A failure of `Del` is ignored.
  pub invalidate : List String → C → C
  invalidate ids c = elim (redis.connected c) [
    | false ↦ c
    | true ↦ elim ids [ [] ↦ c | id ∷ rest ↦ (redis.del (map cache_key (id ∷ rest)) c).1 ]
  ]

  after_confirm : String → Result Bool × S → C → Result Bool × (S × C)
  unfolding invalidate
  after_confirm id (err e, s) c = (err (wrap "caching store: confirm: %w" [] e), (s, c))
  after_confirm id (ok b, s) c = (ok b, (s, invalidate (id ∷ []) c))

  pub confirm_pending : ℕ → String → S × C → Result Bool × (S × C)
  unfolding after_confirm
  confirm_pending now id (s, c) = after_confirm id (inner.confirm_pending now id s) c

  pub cancel_stale_pending : ℕ → ℕ → S × C → Result (List String) × (S × C)
  unfolding invalidate
  cancel_stale_pending now cutoff (s, c) =
      let (r, s') = inner.cancel_stale_pending now cutoff s in
      elim r [
        | err e ↦ (err (wrap "caching store: cancel stale: %w" [] e), (s', c))
        | ok ids ↦ (ok ids, (s', invalidate ids c))
      ]

  -- `Create` and `List` are those of the embedded store.
  unfoldable pub caching_store : Store (S × C)
  unfolding get confirm_pending cancel_stale_pending
  caching_store = record {
    create = λ now customer items (s, c).
        let (r, s') = inner.create now customer items s in (r, (s', c));
    get = get;
    list = λ now (s, c). let (r, s') = inner.list now s in (r, (s', c));
    confirm_pending = confirm_pending;
    cancel_stale_pending = cancel_stale_pending;
  }
