-- ===== src/Http/Client.antt =====
-- pkg/http/client/client.go: options, the transport that middlewares wrap, and `Do`. A round tripper is
-- any type `T`; net/http, net/url and encoding/json are parameters.
pub mod Wrapping
pub mod Doing
use mathlib.Core.List.{foldl}
use gokit_services.Common.{
  ℕ, zero, suc, ◌++◌, String, str_eq, Bool, true, false, not, ◌&&◌, ◌||◌, Option, none, some, List,
  [], ◌∷◌, length, get_elem?, ltb, leb, if◌then◌else◌,
}
use gokit_services.Common.Assoc.{Assoc, insert}
use gokit_services.Common.Int.{ℤ, pos}
use gokit_services.Common.Errors.{Err, Result, ok, err, wrap, errorf, num, text, wrapped}

-- The base URL is known by a number, as the logger is.
pub record Client (T : Type 0) : Type 0 where
  pub base_url : ℕ
  pub timeout : ℤ
  pub transport : Option T
  pub middlewares : List (T → T)
  pub logger : ℕ
  pub max_idle_conns : ℤ
  pub max_idle_conns_per_host : ℤ
  pub idle_conn_timeout : ℤ
  pub tls_handshake_timeout : ℤ

pub data ClientOption (T : Type 0) : Type 0 where
  with_timeout : ℤ → ClientOption T
  with_transport : Option T → ClientOption T
  with_middleware : List (T → T) → ClientOption T
  with_max_idle_conns with_max_idle_conns_per_host : ℤ → ClientOption T
  with_idle_conn_timeout with_tls_handshake_timeout : ℤ → ClientOption T
  with_logger : ℕ → ClientOption T

module _ {T : Type 0} where
  unfoldable pub apply_option : Client T → ClientOption T → Client T
  apply_option c (with_timeout d) = record c { timeout = d }
  apply_option c (with_transport t) = record c { transport = t }
  apply_option c (with_middleware ms) = record c { middlewares = c.middlewares ++ ms }
  apply_option c (with_max_idle_conns n) = record c { max_idle_conns = n }
  apply_option c (with_max_idle_conns_per_host n) = record c { max_idle_conns_per_host = n }
  apply_option c (with_idle_conn_timeout d) = record c { idle_conn_timeout = d }
  apply_option c (with_tls_handshake_timeout d) = record c { tls_handshake_timeout = d }
  apply_option c (with_logger l) = record c { logger = l }

  -- `for i := len(middlewares) - 1; i >= 0; i--`, with i + 1 indices left.
  unfoldable pub wrap_from : List (T → T) → ℕ → T → T
  wrap_from ms zero t = t
  wrap_from ms (suc i) t = elim (get_elem? ms i) [
    | none ↦ wrap_from ms i t
    | some m ↦ wrap_from ms i (m t)
  ]

  abbrev pub defaults : ℕ → Client T
  defaults base = record {
    base_url = base;
    timeout = pos 30_000_000_000;
    transport = none;
    middlewares = [];
    logger = 0;
    max_idle_conns = pos 100;
    max_idle_conns_per_host = pos 10;
    idle_conn_timeout = pos 90_000_000_000;
    tls_handshake_timeout = pos 10_000_000_000;
  }

  -- The transport of an optioned client; `make` is the `http.Transport` of the four settings.
  unfoldable pub built : (ℤ → ℤ → ℤ → ℤ → T) → Client T → Client T
  unfolding wrap_from
  built make c =
      let base : T = elim c.transport [
        | none ↦
            make c.max_idle_conns c.max_idle_conns_per_host c.idle_conn_timeout
              c.tls_handshake_timeout
        | some t ↦ t
      ] in
      record c { transport = some (wrap_from c.middlewares (length c.middlewares) base) }

  -- `parse` is `url.Parse`.
  unfoldable pub new :
      (String → Result ℕ) → (ℤ → ℤ → ℤ → ℤ → T) → String → List (ClientOption T) → Result (Client T)
  unfolding built apply_option
  new parse make base_url opts = elim (parse base_url) [
    | err e ↦ err (wrap "parsing base URL: %w" [] e)
    | ok base ↦ ok (built make (foldl apply_option (defaults base) opts))
  ]

-- A body of a request, known by a number; whether it is wrapped so that closing does nothing.
pub record Body : Type 0 where
  pub reader : ℕ
  pub nop_closer : Bool

pub record Request : Type 0 where
  pub http_method : String
  pub url : String
  pub headers : Assoc String
  pub body : Option Body
  pub content_length : ℕ

-- The reader that `WithBody` gets: whether it can be closed, and its length if it knows it.
pub record Reader : Type 0 where
  pub reader : ℕ
  pub closes : Bool
  pub len : Option ℕ

pub data RequestOption : Type 0 where
  with_header : String → String → RequestOption
  with_body : Reader → String → RequestOption

-- `canonical` is the form that `Header.Set` gives a key.
unfoldable pub apply_request : (String → String) → Request → RequestOption → Request
apply_request canonical r (with_header key value) = record r {
  headers = insert (canonical key) value r.headers;
}
apply_request canonical r (with_body b type) = record r {
  body = some (record { reader = b.reader; nop_closer = not b.closes });
  content_length = elim b.len [ none ↦ r.content_length | some n ↦ n ];
  headers = if str_eq type "" then r.headers else insert (canonical "Content-Type") type r.headers;
}

-- What the transport answers: the status, what reading the body gives, what closing it returns.
pub record Response : Type 0 where
  pub status : ℕ
  pub read : Result String
  pub close : Option Err

-- What a call of `Do` leaves: its result, whether the response's body was closed, and what was logged.
pub record Done (A : Type 0) : Type 0 where
  pub result : Result A
  pub closed : Bool
  pub logged : Option Err

module _ {A : Type 0} (decode : String → Result A) (nothing : A) (status_text : ℕ → String) where
  -- `Do` once the body is read. The value that goes with an error is left out.
  unfoldable pub decoded : ℕ → String → Result A
  decoded status body =
      if ltb status 200 || leb 300 status
      then err (
          errorf "unexpected status %d %s: %s"
            (num status ∷ text (status_text status) ∷ text body ∷ []))
      else (if str_eq body "" then ok nothing else wrapped "decoding response: %w" (decode body))

  unfoldable pub received : Response → Result A
  unfolding decoded
  received resp = elim resp.read [
    | err e ↦ err (wrap "reading response body: %w" [] e)
    | ok body ↦ decoded resp.status body
  ]

  -- `create` is `http.NewRequestWithContext` of method and URL, `send` the client's `Do`.
  unfoldable pub do_request :
      (String → String → Result Request)
      → (String → String)
      → (Request → Result Response)
      → String
      → String
      → List RequestOption
      → Done A
  unfolding received apply_request
  do_request create canonical send method url opts = elim (create method url) [
    | err e ↦ record {
      result = err (wrap "creating request: %w" [] e);
      closed = false;
      logged = none;
    }
    | ok req ↦ elim (send (foldl (apply_request canonical) req opts)) [
      | err e ↦ record {
        result = err (wrap "sending request: %w" [] e);
        closed = false;
        logged = none;
      }
      | ok resp ↦ record { result = received resp; closed = true; logged = resp.close }
    ]
  ]
