-- ===== src/Http/Client/Wrapping.antt =====
-- In which order the middlewares of pkg/http/client/client.go wrap the transport.
use mathlib.Core.List.{foldl, foldr}
use gokit_services.Common.{
  ℕ, zero, suc, ◌≡◌, refl, sym, ap, ◌∙◌, ◌++◌, append-nil, append_assoc, String, Option, none, some,
  List, [], ◌∷◌, length, get_elem?,
}
use gokit_services.Common.Int.{ℤ}
use gokit_services.Common.Errors.{Result, ok}
use gokit_services.Http.Client.{
  Client, ClientOption, with_timeout, with_transport, with_middleware, with_max_idle_conns,
  with_max_idle_conns_per_host, with_idle_conn_timeout, with_tls_handshake_timeout, with_logger,
  apply_option, wrap_from, defaults, built, new,
}

module _ {T : Type 0} where
  abbrev pub layered : List (T → T) → T → T
  layered ms t = foldr (λ m u. m u) t ms

  outermost :
      (o : Option (T → T)) (f g m : T → T)
      → ((t : T) → f t ≡ m (g t))
      → (t : T)
      → elim o as (λ x. T) [ none ↦ f t | some n ↦ f (n t) ]
        ≡ m (elim o as (λ x. T) [ none ↦ g t | some n ↦ g (n t) ])
  outermost none f g m h t = h t
  outermost (some n) f g m h t = h (n t)

  -- Index i + 1 of a longer list is index i of its tail.
  wrap_from-cons :
      (m : T → T) (ms : List (T → T)) (i : ℕ) (t : T)
      → wrap_from (m ∷ ms) (suc i) t ≡ m (wrap_from ms i t)
  unfolding wrap_from
  wrap_from-cons m ms zero t = refl
  wrap_from-cons m ms (suc i) t =
      outermost (get_elem? ms i) (wrap_from (m ∷ ms) (suc i)) (wrap_from ms i) m
        (wrap_from-cons m ms i) t

  wrap_from-layered : (ms : List (T → T)) (t : T) → wrap_from ms (length ms) t ≡ layered ms t
  unfolding wrap_from
  wrap_from-layered [] t = refl
  wrap_from-layered (m ∷ ms) t = wrap_from-cons m ms (length ms) t ∙ ap m (wrap_from-layered ms t)

  -- The middlewares of all options, in order.
  abbrev pub middlewares_of : List (ClientOption T) → List (T → T)
  middlewares_of [] = []
  middlewares_of (with_middleware ms ∷ opts) = ms ++ middlewares_of opts
  middlewares_of (_ ∷ opts) = middlewares_of opts

  -- The transport that the last `WithTransport` sets.
  abbrev pub transport_of : Option T → List (ClientOption T) → Option T
  transport_of t [] = t
  transport_of t (with_transport u ∷ opts) = transport_of u opts
  transport_of t (_ ∷ opts) = transport_of t opts

  options_applied :
      (c : Client T) (opts : List (ClientOption T))
      → let d = foldl apply_option c opts in
        (d.middlewares ≡ c.middlewares ++ middlewares_of opts)
        × (d.transport ≡ transport_of c.transport opts)
        × (d.base_url ≡ c.base_url)
  unfolding apply_option
  options_applied c [] = (sym (append-nil c.middlewares), refl, refl)
  options_applied c (with_middleware ms ∷ opts) =
      let (m, t, b) = options_applied (record c { middlewares = c.middlewares ++ ms }) opts in
      (m ∙ append_assoc c.middlewares ms (middlewares_of opts), t, b)
  options_applied c (with_timeout d ∷ opts) = options_applied (record c { timeout = d }) opts
  options_applied c (with_transport t ∷ opts) = options_applied (record c { transport = t }) opts
  options_applied c (with_max_idle_conns n ∷ opts) =
      options_applied (record c { max_idle_conns = n }) opts
  options_applied c (with_max_idle_conns_per_host n ∷ opts) =
      options_applied (record c { max_idle_conns_per_host = n }) opts
  options_applied c (with_idle_conn_timeout d ∷ opts) =
      options_applied (record c { idle_conn_timeout = d }) opts
  options_applied c (with_tls_handshake_timeout d ∷ opts) =
      options_applied (record c { tls_handshake_timeout = d }) opts
  options_applied c (with_logger l ∷ opts) = options_applied (record c { logger = l }) opts

  -- When the base URL parses, `New` makes a client with that URL. Its transport is the last one
  -- that the options set, or the default one of the client's own settings, inside the middlewares
  -- of all options, of which the first is outermost.
  pub transport_layered :
      (parse : String → Result ℕ) (make : ℤ → ℤ → ℤ → ℤ → T) (base_url : String)
      (opts : List (ClientOption T)) (base : ℕ)
      → parse base_url ≡ ok base
      → let c = foldl apply_option (defaults base) opts in
        let made =
          make c.max_idle_conns c.max_idle_conns_per_host c.idle_conn_timeout
            c.tls_handshake_timeout in
        (d : Client T) × (new parse make base_url opts ≡ ok d)
        × (d.transport
            ≡ some (
                layered
                  (middlewares_of opts)
                  (elim (transport_of none opts) [ none ↦ made | some t ↦ t ])))
        × (d.base_url ≡ base)
  unfolding new built
  transport_layered parse make base_url opts base h =
      let c = foldl apply_option (defaults base) opts in
      let (m, t, b) = options_applied (defaults base) opts in
      (built make c, rw (new, h) refl, rw (← t, wrap_from-layered, m) refl, b)
