-- ===== src/Backends/Connected.antt =====
-- What `Start` of pkg/dbservice/service.go and pkg/redisservice/service.go connects to.
use gokit_services.Common.{ℕ, ◌≤◌, ◌≡◌, refl, ◌∙◌, sym, ap, inl, inr, Option, none, some, arith}
use gokit_services.Common.Errors.{Err, Result, ok, err, Result-cases}
use gokit_services.Retry
use gokit_services.Retry.Calls.{do_retry_calls, do_retry_last}
use gokit_services.Backends.{Driver, retrying}
use gokit_services.Backends.Db
use gokit_services.Backends.Redis

db_pinged :
    (d : Driver Db.PoolConfig (Result ℕ)) (k q p : ℕ) (o : Option Err)
    → d.ping k q ≡ o
    → (Db.pinged q o).0 ≡ ok p
    → (ok q ≡ ok p) × (d.ping k p ≡ none)
unfolding Db.pinged
db_pinged d k q p none e h = (h, ground (arith, e, h))
db_pinged d k q p (some x) e h = ground (arith, h)

db_attempt :
    (d : Driver Db.PoolConfig (Result ℕ)) (k p : ℕ) (r : Result ℕ)
    → (Db.created d k r).0 ≡ ok p
    → (r ≡ ok p) × (d.ping k p ≡ none)
unfolding Db.created
db_attempt d k p (ok q) h = db_pinged d k q p (d.ping k q) refl h
db_attempt d k p (err e) h = ground (arith, h)

redis_attempt :
    (d : Driver Redis.ClientOptions ℕ) (k q p : ℕ) (o : Option Err)
    → d.ping k q ≡ o
    → (Redis.pinged d q o).0 ≡ ok p
    → (q ≡ p) × (d.ping k p ≡ none)
unfolding Redis.pinged
redis_attempt d k q p none e h = (ground (arith, h), ground (arith, e, h))
redis_attempt d k q p (some x) e h = ground (arith, h)

-- What a successful `Start` of the database service has done.
pub record DbConnected (d : Driver Db.PoolConfig (Result ℕ)) (s t : Db.Service) : Type 0 where
  pub dsn : ℕ
  pub pool : ℕ
  pub attempt : ℕ
  pub parses : d.parse s.dsn ≡ ok dsn
  pub allowed : attempt ≤ Retry.attempts s.retry
  pub creates : d.create (Db.configured s dsn) attempt ≡ ok pool
  pub answers : d.ping attempt pool ≡ none
  pub kept : t ≡ record s { pool = some pool }

db_connected :
    (d : Driver Db.PoolConfig (Result ℕ)) (s t : Db.Service) (n : ℕ) (r : Result ℕ)
    → d.parse s.dsn ≡ ok n
    → (Retry.do_retry
        (retrying d (λ attempt. (Db.connect_once d (Db.configured s n) attempt).0))
        s.retry).outcome
      ≡ r
    → Db.connected s r ≡ (none, t)
    → DbConnected d s t
unfolding Db.connected Db.connect_once
db_connected d s t n (err e) a o h = ground (arith, h)
db_connected d s t n (ok p) a o h =
    let w = retrying d (λ attempt. (Db.connect_once d (Db.configured s n) attempt).0) in
    let k = (Retry.do_retry w s.retry).calls in
    let (c, q) = db_attempt d k p (d.create (Db.configured s n) k) (do_retry_last w s.retry p o) in
    record {
      dsn = n;
      pool = p;
      attempt = k;
      parses = a;
      allowed = (do_retry_calls w s.retry).1;
      creates = c;
      answers = q;
      kept = sym (ap (λ x. x.1) h);
    }

-- `Start` of the database service connects only to a pool that one of the allowed attempts created with
-- the configured limits and that answered a ping in the same attempt; nothing else of the service
-- changes.
db_start_connects :
    (d : Driver Db.PoolConfig (Result ℕ)) (s t : Db.Service)
    → Db.start d s ≡ (none, t)
    → DbConnected d s t
unfolding Db.start
db_start_connects d s t h = elim (Result-cases (d.parse s.dsn)) [
  | inl (n, e) ↦ db_connected d s t n _ e refl (rw (e, Db.start) at h)
  | inr (x, e) ↦ let k = rw (e, Db.start) at h in ground (arith, k)
]

-- What a successful `Start` of the Redis service has done.
pub record RedisConnected (d : Driver Redis.ClientOptions ℕ) (s t : Redis.Service) : Type 0 where
  pub dsn : ℕ
  pub attempt : ℕ
  pub parses : d.parse s.dsn ≡ ok dsn
  pub allowed : attempt ≤ Retry.attempts s.retry
  pub answers : d.ping attempt (d.create (Redis.configured s dsn) attempt) ≡ none
  pub kept : t ≡ record s { client = some (d.create (Redis.configured s dsn) attempt) }

redis_connected :
    (d : Driver Redis.ClientOptions ℕ) (s t : Redis.Service) (n : ℕ) (r : Result ℕ)
    → d.parse s.dsn ≡ ok n
    → (Retry.do_retry
        (retrying d (λ attempt. (Redis.connect_once d (Redis.configured s n) attempt).0))
        s.retry).outcome
      ≡ r
    → Redis.connected s r ≡ (none, t)
    → RedisConnected d s t
unfolding Redis.connected Redis.connect_once
redis_connected d s t n (err e) a o h = ground (arith, h)
redis_connected d s t n (ok p) a o h =
    let w = retrying d (λ attempt. (Redis.connect_once d (Redis.configured s n) attempt).0) in
    let k = (Retry.do_retry w s.retry).calls in
    let made = d.create (Redis.configured s n) k in
    let (c, q) = redis_attempt d k made p (d.ping k made) refl (do_retry_last w s.retry p o) in
    record {
      dsn = n;
      attempt = k;
      parses = a;
      allowed = (do_retry_calls w s.retry).1;
      answers = ap (d.ping k) c ∙ q;
      kept = sym (ap (λ x. x.1) h) ∙ ap (λ x. record s { client = some x }) (sym c);
    }

-- `Start` of the Redis service connects only to a client that one of the allowed attempts created with
-- the configured options and that answered a ping in the same attempt; nothing else of the service
-- changes.
redis_start_connects :
    (d : Driver Redis.ClientOptions ℕ) (s t : Redis.Service)
    → Redis.start d s ≡ (none, t)
    → RedisConnected d s t
unfolding Redis.start
redis_start_connects d s t h = elim (Result-cases (d.parse s.dsn)) [
  | inl (n, e) ↦ redis_connected d s t n _ e refl (rw (e, Redis.start) at h)
  | inr (x, e) ↦ let k = rw (e, Redis.start) at h in ground (arith, k)
]
