-- ===== src/Health/Readiness.antt =====
-- What `handleReadyz` of pkg/healthserver/server.go answers when its probers end in any order.
use mathlib.Core.List.{Perm, perm_middle}
use mathlib.Core.List.Perm
use gokit_services.Common.{
  ℕ, ◌≡◌, ◌≢◌, refl, sym, subst, ◌∙◌, ap, ◌⊎◌, inl, inr, String, false, Option, none, some, List,
  [], ◌∷◌, ◌++◌, append-nil, append_assoc, arith,
}
use gokit_services.Common.Errors.{Err, Result, ok, err}
use gokit_services.Http.Server.{
  Request, serve, recovered, act, write_header, write, wire_write, wire_write_header, final_status,
  sets_type, writes_header, writes,
}
use gokit_services.Health.{Probing, probe_all, noted, answers, Reach, here, next, handle_readyz}

module _ (text_of : Err → String) where
  -- The texts of the errors among the probers' answers.
  abbrev pub failures : List (Option Err) → List String
  failures [] = []
  failures (none ∷ rs) = failures rs
  failures (some e ∷ rs) = text_of e ∷ failures rs

  failures-append : (rs qs : List (Option Err)) → failures (rs ++ qs) ≡ failures rs ++ failures qs
  failures-append [] qs = refl
  failures-append (none ∷ rs) qs = failures-append rs qs
  failures-append (some e ∷ rs) qs = ap (λ l. text_of e ∷ l) (failures-append rs qs)

  -- An answer that fails moves to the end of what is noted.
  failure-Perm :
      (errs fx fy : List String) (t : String)
      → Perm (errs ++ (fx ++ t ∷ fy)) ((errs ++ t ∷ []) ++ (fx ++ fy))
  failure-Perm errs fx fy t =
      subst (λ l. Perm (errs ++ (fx ++ t ∷ fy)) l) (sym (append_assoc errs (t ∷ []) (fx ++ fy)))
        (Perm.append_left errs (perm_middle fx fy))

  noted-Perm :
      (errs : List String) (xs ys : List (Option Err)) (r : Option Err)
      → Perm (errs ++ failures (xs ++ r ∷ ys)) (noted text_of r errs ++ failures (xs ++ ys))
  noted-Perm errs xs ys none =
      subst (λ l. Perm (errs ++ l) (errs ++ failures (xs ++ ys)))
        (failures-append xs ys ∙ sym (failures-append xs (none ∷ ys))) (Perm.refl _)
  noted-Perm errs xs ys (some e) =
      rw (failures-append xs (some e ∷ ys), failures-append xs ys)
        (failure-Perm errs (failures xs) (failures ys) (text_of e))

  -- Every failure is noted or still to come.
  Reach-Perm :
      {rs : List (Option Err)} {s : Probing}
      → Reach text_of (probe_all rs) s
      → Perm (failures rs) (s.errs ++ failures s.running)
  Reach-Perm here = Perm.refl _
  Reach-Perm {rs} (next way (answers s xs ys r e)) =
      Perm.trans (subst (λ l. Perm (failures rs) (s.errs ++ failures l)) e (Reach-Perm way))
        (noted-Perm s.errs xs ys r)

-- What the client and the metrics get of the errors.
status_of : List String → ℕ
status_of [] = 200
status_of (e ∷ errs) = 503

marshaled :
    (n : ℕ) (req : Request) (r : Result ℕ)
    → let w = serve n req (record {
      actions =
          sets_type "application/json"
          ∷ writes_header 503
          ∷ elim r [ ok k ↦ writes k ∷ [] | err failed ↦ [] ];
      panics = false;
    }) in
      (final_status w.wire ≡ 503)
      × (w.status_code ≡ 503)
      × (w.wire.sent_type ≡ some "application/json")
unfolding serve recovered act write_header write wire_write wire_write_header
marshaled n req (ok k) = (refl, refl, refl)
marshaled n req (err e) = (refl, refl, refl)

replied :
    (marshal : List String → Result ℕ) (n : ℕ) (req : Request) (errs : List String)
    → let w = serve n req (record { actions = handle_readyz marshal errs; panics = false }) in
      (final_status w.wire ≡ status_of errs)
      × (w.status_code ≡ status_of errs)
      × (w.wire.sent_type ≡ some "application/json")
unfolding status_of serve recovered act write_header write wire_write wire_write_header
    handle_readyz
replied marshal n req [] = (refl, refl, refl)
replied marshal n req (e ∷ errs) = marshaled n req (marshal (e ∷ errs))

judged :
    (errs fails : List String)
    → Perm fails errs
    → ((fails ≡ []) × (status_of errs ≡ 200)) ⊎ ((fails ≢ []) × (status_of errs ≡ 503))
unfolding status_of
judged [] fails p = inl (Perm.eq-nil p, refl)
judged (e ∷ errs) fails p = inr (
  λ none_left. let q = Perm.nil-eq (subst (λ l. Perm l (e ∷ errs)) none_left p) in ground arith,
  refl,
)

-- In whatever order the probers end: the errors that `handleReadyz` reports are those of the failing
-- probers, each as often as it occurs, and the request through the server's middleware is answered
-- with 200 if no prober failed and with 503 otherwise, also when the error document cannot be
-- marshaled. The metrics record the same status.
pub readyz_exact :
    (text_of : Err → String) (marshal : List String → Result ℕ) (n : ℕ) (req : Request)
    (probers : List (Option Err)) (s : Probing)
    → Reach text_of (probe_all probers) s
    → s.running ≡ []
    → let w = serve n req (record { actions = handle_readyz marshal s.errs; panics = false }) in
      let fails = failures text_of probers in
      Perm fails s.errs
      × (w.wire.sent_type ≡ some "application/json")
      × (w.status_code ≡ final_status w.wire)
      × (((fails ≡ []) × (final_status w.wire ≡ 200))
          ⊎ ((fails ≢ []) × (final_status w.wire ≡ 503)))
readyz_exact text_of marshal n req probers s way e =
    let p = subst (Perm (failures text_of probers)) (append-nil s.errs) (
      subst (λ l. Perm (failures text_of probers) (s.errs ++ failures text_of l)) e
        (Reach-Perm text_of way)) in
    let (sent, noted_as, type) = replied marshal n req s.errs in
    let j = judged s.errs (failures text_of probers) p in
    (p, type, noted_as ∙ sym sent, ground (arith, j, sent))
