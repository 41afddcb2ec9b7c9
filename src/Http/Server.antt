-- ===== src/Http/Server.antt =====
-- pkg/http/server/server.go: options, and the middleware that records metrics and recovers panics.
-- The handler is code of the caller: what it does to its writer, in order, and whether it panics at
-- the end are parameters. `Wire` is the writer of net/http underneath, as that package documents it.
pub mod Recording
pub mod Inflight
pub mod Lifecycle
use mathlib.Core.List.{foldl}
use gokit_services.Common.{
  ℕ, ◌+◌, ◌-◌, ◌++◌, String, str_eq, Bool, true, false, not, ◌&&◌, Option, none, some, List, [],
  ◌∷◌, ltb, leb, ◌==◌, if◌then◌else◌,
}
use gokit_services.Common.Int.{ℤ, pos}

pub record Problem : Type 0 where
  pub type : String
  pub title : String
  pub status : ℕ
  pub detail : Option String
  pub instance_path : String
  pub invalid_params : Option String

abbrev pub problem_content_type : String
problem_content_type = "application/problem+json"

-- Before `Start`: durations are nanoseconds; handler, logger and registerer are known by numbers.
pub record Server : Type 0 where
  pub host : String
  pub port : ℕ
  pub read_timeout : ℤ
  pub read_header_timeout : ℤ
  pub write_timeout : ℤ
  pub idle_timeout : ℤ
  pub max_header_bytes : ℕ
  pub app_name : String
  pub logger : ℕ
  pub handler : ℕ
  pub registerer : ℕ

pub data ServerOption : Type 0 where
  with_host : String → ServerOption
  with_port : ℕ → ServerOption
  with_read_timeout with_read_header_timeout with_write_timeout with_idle_timeout : ℤ → ServerOption
  with_max_header_bytes : ℕ → ServerOption
  with_app_name : String → ServerOption
  with_logger : ℕ → ServerOption
  with_prometheus_registerer : ℕ → ServerOption

unfoldable pub apply_option : Server → ServerOption → Server
apply_option s (with_host host) = record s { host = host }
apply_option s (with_port port) = record s { port = port }
apply_option s (with_read_timeout d) = record s { read_timeout = d }
apply_option s (with_read_header_timeout d) = record s { read_header_timeout = d }
apply_option s (with_write_timeout d) = record s { write_timeout = d }
apply_option s (with_idle_timeout d) = record s { idle_timeout = d }
apply_option s (with_max_header_bytes n) = record s { max_header_bytes = n }
apply_option s (with_app_name name) = record s { app_name = name }
apply_option s (with_logger l) = record s { logger = l }
apply_option s (with_prometheus_registerer r) = record s { registerer = r }

unfoldable pub new_server : ℕ → List ServerOption → Server
unfolding apply_option
new_server handler = foldl apply_option (record {
  host = "0.0.0.0";
  port = 8080;
  read_timeout = pos 5_000_000_000;
  read_header_timeout = pos 5_000_000_000;
  write_timeout = pos 10_000_000_000;
  idle_timeout = pos 120_000_000_000;
  max_header_bytes = 0;
  app_name = "";
  logger = 0;
  handler = handler;
  registerer = 0;
})

-- net/http's writer: the status line once it is sent, the informational ones before it, the content
-- type in the header map and the one that was sent, and the bytes of the body that it accepted. On a
-- hijacked connection it does nothing more. On a code outside 100-999 net/http panics, and the body of
-- an answer to HEAD is accepted but not sent: neither is modelled here.
pub record Wire : Type 0 where
  pub sent : Option ℕ
  pub informed : List ℕ
  pub content_type : Option String
  pub sent_type : Option String
  pub body : ℕ
  pub hijacked : Bool

-- 1xx codes but 101 are sent at once and are not the answer's status.
abbrev pub is_informational : ℕ → Bool
is_informational code = leb 100 code && (leb code 199 && not (code == 101))

-- `http.ResponseWriter.WriteHeader`: only the first final status counts.
unfoldable pub wire_write_header : ℕ → Wire → Wire
wire_write_header code w = if w.hijacked then w else elim w.sent [
  | some c ↦ w
  | none ↦
      if is_informational code
      then record w { informed = w.informed ++ code ∷ [] }
      else record w { sent = some code; sent_type = w.content_type }
]

-- `http.ResponseWriter.Write` of which n bytes are written, and `Flush`: both send 200 if no status
-- was sent.
unfoldable pub wire_write : ℕ → Wire → Wire
unfolding wire_write_header
wire_write n w =
    let v = wire_write_header 200 w in if w.hijacked then w else record v { body = v.body + n }

-- `responseWriter`
pub record ResponseWriter : Type 0 where
  pub wire : Wire
  pub status_code : ℕ
  pub size : ℕ
  pub wrote_header : Bool

unfoldable pub write_header : ℕ → ResponseWriter → ResponseWriter
write_header code rw =
    let noted =
      if rw.wrote_header then rw else record rw { status_code = code; wrote_header = true } in
    record noted { wire = wire_write_header code rw.wire }

-- `Write`, of which the writer underneath writes n bytes, and none once it is hijacked.
unfoldable pub write : ℕ → ResponseWriter → ResponseWriter
write n rw = record rw {
  wrote_header = true;
  wire = wire_write n rw.wire;
  size = if rw.wire.hijacked then rw.size else rw.size + n;
}

-- `Flush`, over a writer that can flush.
unfoldable pub flush : ResponseWriter → ResponseWriter
flush rw = record rw { wire = wire_write 0 rw.wire }

-- `Hijack`, over a writer that can be hijacked: the wrapper notes nothing.
unfoldable pub hijack : ResponseWriter → ResponseWriter
hijack rw = record rw { wire = record (rw.wire) { hijacked = true } }

abbrev pub set_type : String → ResponseWriter → ResponseWriter
set_type t rw = record rw { wire = record (rw.wire) { content_type = some t } }

-- What a handler does to its writer.
pub data Action : Type 0 where
  sets_type : String → Action
  writes_header : ℕ → Action
  writes : ℕ → Action
  flushes hijacks : Action

unfoldable pub act : ResponseWriter → Action → ResponseWriter
act rw (sets_type t) = set_type t rw
act rw (writes_header code) = write_header code rw
act rw (writes n) = write n rw
act rw flushes = flush rw
act rw hijacks = hijack rw

-- `WriteProblem`; `encoded` is the number of bytes that the encoder writes.
unfoldable pub write_problem : ℕ → Problem → ResponseWriter → ResponseWriter
write_problem encoded p rw =
    write encoded (write_header p.status (set_type problem_content_type rw))

-- The pattern that the request has when the middleware is entered and when it is left: a mux inside
-- sets it.
pub record Request : Type 0 where
  pub pattern_in : String
  pub pattern_out : String
  pub http_method : String
  pub path : String

-- A call of the handler: what it does, and whether it panics then.
pub record Call : Type 0 where
  pub actions : List Action
  pub panics : Bool

abbrev pub fresh_writer : ResponseWriter
fresh_writer = record {
  wire = record {
    sent = none;
    informed = [];
    content_type = none;
    sent_type = none;
    body = 0;
    hijacked = false;
  };
  status_code = 200;
  size = 0;
  wrote_header = false;
}

abbrev pub panic_problem : Request → Problem
panic_problem r = record {
  type = "";
  title = "Internal Server Error";
  status = 500;
  detail = none;
  instance_path = r.path;
  invalid_params = none;
}

-- The deferred function's treatment of a panic.
unfoldable pub recovered : ℕ → Request → Bool → ResponseWriter → ResponseWriter
recovered encoded r panics rw =
    if panics && not rw.wrote_header then write_problem encoded (panic_problem r) rw else rw

-- The writer when the middleware is left.
unfoldable pub serve : ℕ → Request → Call → ResponseWriter
serve encoded r call = recovered encoded r call.panics (foldl act fresh_writer call.actions)

-- The status that the client gets: net/http sends 200 for a handler that sent none.
abbrev pub final_status : Wire → ℕ
final_status w = elim w.sent [ none ↦ 200 | some code ↦ code ]
