-- ===== src/Http/Server/Lifecycle.antt =====
-- The ends of the life of pkg/http/server/server.go: listening, and what is particular among the
-- steps that Graceful gives.
use gokit_services.Common.{ℕ, String, true, Option, none, some, [], ◌∷◌, if◌then◌else◌}
use gokit_services.Common.Errors.{
  Result, ok, err, wrap, wrapped, errorf, text, errors_is, is_server_closed,
}
use gokit_services.Graceful.{Flavor}
use gokit_services.Http.Server.{Server}

-- The beginning of `Start`, which gives the listener: `join` is `net.JoinHostPort` of a host and a
-- printed port, `listen` is `net.Listen`.
unfoldable pub start_listening : (String → ℕ → String) → (String → Result ℕ) → Server → Result ℕ
start_listening join listen s =
    let at = join s.host s.port in
    elim (listen at) [ ok ln ↦ ok ln | err e ↦ err (wrap "listening on %s: %w" (text at ∷ []) e) ]

-- `Addr`, by the listener; `bound` is the address of one.
unfoldable pub addr : (String → ℕ → String) → (ℕ → String) → Server → Option ℕ → String
addr join bound s listener = elim listener [ none ↦ join s.host s.port | some ln ↦ bound ln ]

-- What `Start` makes of an error of `Serve`.
unfoldable pub flavor : Flavor
flavor = record {
  stop_format = "http server stop: %w";
  report = λ e. if errors_is is_server_closed e then none else some (wrap "serving: %w" [] e);
  may_hijack = true;
}

-- `Hijack`: `none` is a writer underneath that cannot be hijacked; a connection is a number.
unfoldable pub hijacked : Option (Result ℕ) → Result ℕ
hijacked none =
    err (errorf "responseWriter: underlying ResponseWriter does not implement http.Hijacker" [])
hijacked (some r) = wrapped "responseWriter hijack: %w" r
