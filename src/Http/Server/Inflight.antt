-- ===== src/Http/Server/Inflight.antt =====
-- The metrics of pkg/http/server/server.go: what the middleware does to them around a request, and
-- the gauge of requests in flight while requests begin and end in any order.
use gokit_services.Common.{
  ℕ, suc, ◌+◌, ◌-◌, ◌++◌, ◌≡◌, refl, ◌∙◌, String, str_eq, List, [], ◌∷◌, arith, length,
  length-append, if◌then◌else◌, ap,
}
use gokit_services.Http.Server.{Request, Call, serve}

-- An observation of the two histograms: pattern, method, code, size.
pub record Observed : Type 0 where
  pub pattern : String
  pub http_method : String
  pub code : ℕ
  pub size : ℕ

-- The metrics, with the gauge of requests in flight by pattern, and a panic by its method and pattern.
pub record Metrics : Type 0 where
  pub inflight : String → ℕ
  pub panic_total : List (String × String)
  pub observed : List Observed

abbrev add_at : String → (String → ℕ) → String → ℕ
add_at k g p = if str_eq k p then g p + 1 else g p

-- A gauge can be decremented below zero; this one stops there, where the gauge is never decremented,
-- since each request was counted when it entered.
abbrev sub_at : String → (String → ℕ) → String → ℕ
sub_at k g p = if str_eq k p then g p - 1 else g p

-- What the middleware does to the metrics before the handler is called, and in the deferred function.
unfoldable pub enter : Request → Metrics → Metrics
enter r m = record m { inflight = add_at r.pattern_in m.inflight }

unfoldable pub leave : ℕ → Request → Call → Metrics → Metrics
leave encoded r call m =
    let rw = serve encoded r call in
    record {
      inflight = sub_at r.pattern_in m.inflight;
      panic_total =
          if call.panics
          then m.panic_total ++ (r.http_method, r.pattern_out) ∷ []
          else m.panic_total;
      observed =
          m.observed
          ++ record {
            pattern = r.pattern_out;
            http_method = r.http_method;
            code = rw.status_code;
            size = rw.size;
          }
            ∷ [];
    }

-- `active` are the requests whose handlers run; `ended` counts the others.
pub record Traffic : Type 0 where
  pub active : List Request
  pub metrics : Metrics
  pub ended : ℕ

pub data Step : Traffic → Traffic → Type 0 where
  begins :
      (t : Traffic) (r : Request)
      → Step t (record t { active = r ∷ t.active; metrics = enter r t.metrics })
  ends :
      (t : Traffic) (before after : List Request) (r : Request) (encoded : ℕ) (call : Call)
      → t.active ≡ before ++ r ∷ after
      → Step t (record {
        active = before ++ after;
        metrics = leave encoded r call t.metrics;
        ended = suc t.ended;
      })

pub data Reach (t : Traffic) : Traffic → Type 0 where
  here : Reach t t
  next : {u v : Traffic} → Reach t u → Step u v → Reach t v

abbrev pub quiet : Traffic
quiet = record {
  active = [];
  metrics = record { inflight = λ p. 0; panic_total = []; observed = [] };
  ended = 0;
}

-- How many of the requests entered under the pattern.
abbrev pub entered : String → List Request → ℕ
entered p [] = 0
entered p (r ∷ rs) = (if str_eq r.pattern_in p then 1 else 0) + entered p rs

entered-append :
    (p : String) (xs ys : List Request) → entered p (xs ++ ys) ≡ entered p xs + entered p ys
entered-append p [] ys = omega arith
entered-append p (x ∷ xs) ys = omega (arith, entered-append p xs ys)

record Inv (t : Traffic) : Type 0 where
  gauged : (p : String) → t.metrics.inflight p ≡ entered p t.active
  counted : length t.metrics.observed ≡ t.ended

gauged-ends :
    (p : String) (before after : List Request) (r : Request) (n : ℕ)
    → n ≡ entered p (before ++ r ∷ after)
    → (if str_eq r.pattern_in p then n - 1 else n) ≡ entered p (before ++ after)
gauged-ends p before after r n e =
    ground (arith, e, entered-append p before (r ∷ after), entered-append p before after)

length-snoc : {A : Type 0} (xs : List A) (x : A) → length (xs ++ x ∷ []) ≡ suc (length xs)
length-snoc xs x = omega (arith, length-append xs (x ∷ []))

Step-Inv : {t u : Traffic} → Step t u → Inv t → Inv u
unfolding enter leave
Step-Inv (begins t r) v = record { gauged = λ p. ground (arith, v.gauged p); counted = v.counted }
Step-Inv (ends t before after r encoded call e) v = record {
  gauged = λ p. gauged-ends p before after r (t.metrics.inflight p) (v.gauged p ∙ ap (entered p) e);
  counted = length-snoc t.metrics.observed _ ∙ ap suc v.counted;
}

Reach-Inv : {t u : Traffic} → Inv t → Reach t u → Inv u
Reach-Inv v here = v
Reach-Inv v (next r st) = Step-Inv st (Reach-Inv v r)

-- At any time the gauge of a pattern is the number of requests that entered under it and are still
-- handled, also if their pattern changed meanwhile or their handlers panic, and as many requests
-- were observed as have ended.
pub gauge_exact :
    (t : Traffic)
    → Reach quiet t
    → ((p : String) → t.metrics.inflight p ≡ entered p t.active)
      × (length t.metrics.observed ≡ t.ended)
gauge_exact t r =
    let v = Reach-Inv (record { gauged = λ p. refl; counted = refl }) r in (v.gauged, v.counted)
