-- ===== src/Grpc/Server.antt =====
-- pkg/grpc/server/server.go: options, listening, and what is particular in the life of this server,
-- whose steps are those of Graceful.
use mathlib.Core.List.{foldl}
use gokit_services.Common.{ℕ, ◌≡◌, refl, subst, false, ◌++◌, String, Option, none, some, List, []}
use gokit_services.Common.Errors.{Err, Result, ok, err, wrap}
use gokit_services.Graceful.{
  Flavor, StartPlace, not_started, serving, closing, start_returned, State, init, Step, listens,
  accepts, answers, ctx_done, quits, shuts, drains, watcher_ends, serve_closed, serve_fails,
  start_ends, stop_late, stop_begins, stop_drained, stop_expires, stop_forced, accepts_late,
  hijacks, stop_again, Reach, here, next,
}

-- `srv` is the underlying server, known by the options it was made with.
pub record Server : Type 0 where
  pub host : String
  pub port : ℕ
  pub srv_opts : List ℕ
  pub srv : List ℕ
  pub logger : ℕ
  pub listener : Option ℕ

pub data ServerOption : Type 0 where
  with_host : String → ServerOption
  with_port : ℕ → ServerOption
  with_logger : ℕ → ServerOption
  with_server_options : List ℕ → ServerOption

unfoldable pub apply_option : Server → ServerOption → Server
apply_option s (with_host host) = record s { host = host }
apply_option s (with_port port) = record s { port = port }
apply_option s (with_logger l) = record s { logger = l }
apply_option s (with_server_options opts) = record s { srv_opts = s.srv_opts ++ opts }

unfoldable pub new_server : List ServerOption → Server
unfolding apply_option
new_server opts =
    let s =
      foldl apply_option
        (record {
          host = "0.0.0.0";
          port = 9090;
          srv_opts = [];
          srv = [];
          logger = 0;
          listener = none;
        })
        opts in
    record s { srv = s.srv_opts }

-- The beginning of `Start`: `join` is `net.JoinHostPort` of a host and a printed port, `listen` is
-- `net.Listen`.
unfoldable pub start_listening :
    (String → ℕ → String) → (String → Result ℕ) → Server → Result Server
start_listening join listen s = elim (listen (join s.host s.port)) [
  | ok ln ↦ ok (record s { listener = some ln })
  | err e ↦ err (wrap "grpc server listen: %w" [] e)
]

-- `Addr`; `bound` is the address of a listener.
unfoldable pub addr : (String → ℕ → String) → (ℕ → String) → Server → String
addr join bound s = elim s.listener [ none ↦ join s.host s.port | some ln ↦ bound ln ]

-- What `Serve` fails with is logged, and `Start` returns nil.
unfoldable pub flavor : Flavor
flavor = record { stop_format = "grpc server stop: %w"; report = λ e. none; may_hijack = false }

-- The life of the server, from `Start` and its watcher to `Stop`.
abbrev pub Life : State → State → Type 0
Life = Step flavor

IsQuiet : StartPlace → Type 0
IsQuiet not_started = Unit
IsQuiet serving = Unit
IsQuiet (closing r) = r ≡ none
IsQuiet (start_returned r) = r ≡ none

Step-IsQuiet : {s t : State} → Life s t → IsQuiet s.start → IsQuiet t.start
unfolding flavor IsQuiet
Step-IsQuiet (listens s h) v = tt
Step-IsQuiet (accepts s h c) v = v
Step-IsQuiet (answers s n e) v = v
Step-IsQuiet (ctx_done s h) v = v
Step-IsQuiet (quits s r h c) v = v
Step-IsQuiet (shuts s h o) v = v
Step-IsQuiet (drains s o e) v = v
Step-IsQuiet (watcher_ends s h o) v = v
Step-IsQuiet (serve_closed s h c) v = refl
Step-IsQuiet (serve_fails s e h) v = refl
Step-IsQuiet (start_ends s r h w) v = subst IsQuiet h v
Step-IsQuiet (stop_late s e h) v = v
Step-IsQuiet (stop_begins s h) v = v
Step-IsQuiet (stop_drained s h o) v = v
Step-IsQuiet (stop_expires s e h) v = v
Step-IsQuiet (stop_forced s e h o) v = v
Step-IsQuiet (accepts_late s o h) v = v
Step-IsQuiet (hijacks s n m e) v = v
Step-IsQuiet (stop_again s r h) v = v

Reach-IsQuiet : {s : State} → Reach flavor init s → IsQuiet s.start
unfolding IsQuiet
Reach-IsQuiet here = tt
Reach-IsQuiet (next r st) = Step-IsQuiet st (Reach-IsQuiet r)

-- Once the gRPC server listens, `Start` can only return nil, whatever `Serve` failed with.
start_never_fails :
    (s : State) (r : Option Err) → Reach flavor init s → s.start ≡ start_returned r → r ≡ none
unfolding IsQuiet
start_never_fails s r way h = subst IsQuiet h (Reach-IsQuiet way)
