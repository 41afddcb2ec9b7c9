-- ===== src/Http/Client/Doing.antt =====
-- What `Do` of pkg/http/client/client.go returns, and when it closes the body.
use mathlib.Core.List.{foldl}
use gokit_services.Common.{
  ℕ, ◌≡◌, ◌≤◌, ◌<◌, ◌↔◌, ◌⊎◌, inl, inr, refl, sym, ap, subst, String, str_eq, true, false, none,
  List, [], arith,
}
use gokit_services.Common.Errors.{Result, ok, err, wrap, Result-cases}
use gokit_services.Http.Client.{
  Request, RequestOption, apply_request, Response, Done, decoded, received, do_request,
}

ok_inj : {B : Type 0} {x y : B} → ok x ≡ ok y → x ≡ y
ok_inj {x} e = ap (λ r. elim r [ ok z ↦ z | err f ↦ x ]) e

module _ {A : Type 0} (decode : String → Result A) (nothing : A) (status_text : ℕ → String) where
  -- A good answer: read to its end, a 2xx status, and a body that is empty and stands for the zero
  -- value, or decodes.
  abbrev pub Answers : Response → A → Type 0
  Answers resp a =
      (body : String) × (resp.read ≡ ok body)
      × (200 ≤ resp.status)
      × (resp.status < 300)
      × (((str_eq body "" ≡ true) × (a ≡ nothing))
          ⊎ ((str_eq body "" ≡ false) × (decode body ≡ ok a)))

  decoded_ok :
      (status : ℕ) (body : String) (a : A) (r : Result A)
      → decode body ≡ r
      → decoded decode nothing status_text status body ≡ ok a
      → (200 ≤ status)
        × (status < 300)
        × (((str_eq body "" ≡ true) × (a ≡ nothing))
            ⊎ ((str_eq body "" ≡ false) × (decode body ≡ ok a)))
  unfolding decoded
  decoded_ok status body a (ok b) e h = ground (arith, e, h)
  decoded_ok status body a (err b) e h = ground (arith, e, h)

  received-Answers :
      (resp : Response) (a : A) → received decode nothing status_text resp ≡ ok a → Answers resp a
  unfolding received
  received-Answers resp a h = elim (Result-cases resp.read) [
    | inl (body, e) ↦
        let (lo, hi, how) =
          decoded_ok resp.status body a (decode body) refl (ground (arith, e, h)) in
        (body, e, lo, hi, how)
    | inr (e, failed) ↦ ground (arith, failed, h)
  ]

  Answers-received :
      (resp : Response) (a : A) → Answers resp a → received decode nothing status_text resp ≡ ok a
  unfolding received decoded
  Answers-received resp a (body, e, lo, hi, inl (z, same)) = ground (arith, e, lo, hi, z, same)
  Answers-received resp a (body, e, lo, hi, inr (z, same)) = ground (arith, e, lo, hi, z, same)

  -- What `Do` leaves after the transport's answer.
  after : Result Response → Done A
  after (ok resp) = record {
    result = received decode nothing status_text resp;
    closed = true;
    logged = resp.close;
  }
  after (err e) = record {
    result = err (wrap "sending request: %w" [] e);
    closed = false;
    logged = none;
  }

  do_request-after :
      (create : String → String → Result Request) (canonical : String → String)
      (send : Request → Result Response) (method url : String) (opts : List RequestOption)
      (req : Request) (r : Result Response)
      → create method url ≡ ok req
      → send (foldl (apply_request canonical) req opts) ≡ r
      → do_request decode nothing status_text create canonical send method url opts ≡ after r
  unfolding do_request after
  do_request-after create canonical send method url opts req (ok resp) h e =
      rw (do_request, h, e) refl
  do_request-after create canonical send method url opts req (err f) h e =
      rw (do_request, h, e) refl

  after-exact :
      (r : Result Response) (a : A)
      → ((after r).result ≡ ok a ↔ ((resp : Response) × (r ≡ ok resp) × Answers resp a))
        × ((after r).closed ≡ true ↔ ((resp : Response) × (r ≡ ok resp)))
  unfolding after
  after-exact (ok resp) a = (
    (
      λ h. (resp, refl, received-Answers resp a h),
      λ (other, same, good).
          subst (λ s. received decode nothing status_text s ≡ ok a) (sym (ok_inj same))
            (Answers-received other a good),
    ),
    (λ h. (resp, refl), λ h. refl),
  )
  after-exact (err e) a = (
    (λ h. ground (arith, h), λ (other, same, good). ground (arith, same)),
    (λ h. ground (arith, h), λ (other, same). ground (arith, same)),
  )

  -- When the request can be made, `Do` returns the value a exactly if the request with all its options
  -- is answered, the body is read, the status is 2xx, and the body decodes to a, or is empty and a is
  -- the zero value. The body of a response is closed whatever happens after it came, and only then.
  pub do_exact :
      (create : String → String → Result Request) (canonical : String → String)
      (send : Request → Result Response) (method url : String) (opts : List RequestOption)
      (req : Request) (a : A)
      → create method url ≡ ok req
      → let sent = send (foldl (apply_request canonical) req opts) in
        let d = do_request decode nothing status_text create canonical send method url opts in
        (d.result ≡ ok a ↔ ((resp : Response) × (sent ≡ ok resp) × Answers resp a))
        × (d.closed ≡ true ↔ ((resp : Response) × (sent ≡ ok resp)))
  do_exact create canonical send method url opts req a h =
      rw (do_request-after create canonical send method url opts req _ h refl)
        (after-exact (send (foldl (apply_request canonical) req opts)) a)
