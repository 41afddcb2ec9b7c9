-- ===== src/Http/Server/Recording.antt =====
-- What the middleware of pkg/http/server/server.go records and answers, against what the client gets.
use mathlib.Core.List.{foldl}
use gokit_services.Common.{
  ℕ, ◌+◌, ◌≡◌, refl, Bool, true, false, not, ◌&&◌, ◌⊎◌, inl, inr, leb, str_eq, none, some, List, [],
  ◌∷◌, arith,
}
use gokit_services.Http.Server.{
  is_informational, wire_write_header, wire_write, ResponseWriter, write_header, write, flush,
  Action, sets_type, writes_header, writes, flushes, hijacks, act, write_problem, Request, Call,
  fresh_writer, recovered, serve, final_status, problem_content_type,
}

-- The actions do not hijack the connection, set only the status codes that net/http takes, none of
-- them informational before the status is set, and do not flush before it is set; the Boolean says
-- whether it is set already.
abbrev pub IsTame : Bool → List Action → Type 0
IsTame b [] = Unit
IsTame b (sets_type t ∷ rest) = IsTame b rest
IsTame b (writes_header code ∷ rest) =
    (is_informational code && not b ≡ false)
    × ((leb 100 code && leb code 999 ≡ true) × IsTame true rest)
IsTame b (writes n ∷ rest) = IsTame true rest
IsTame b (flushes ∷ rest) = (b ≡ true) × IsTame b rest
IsTame b (hijacks ∷ rest) = ⊥

-- The wrapper knows what its writer sent.
record IsAware (rw : ResponseWriter) : Type 0 where
  set : rw.wrote_header ≡ true → rw.wire.sent ≡ some rw.status_code
  unset : rw.wrote_header ≡ false → (rw.wire.sent ≡ none) × (rw.status_code ≡ 200)
  sized : rw.size ≡ rw.wire.body
  kept : rw.wire.hijacked ≡ false

act-IsAware :
    (rw : ResponseWriter) (a : Action) (rest : List Action)
    → IsAware rw
    → IsTame rw.wrote_header (a ∷ rest)
    → IsAware (act rw a) × IsTame (act rw a).wrote_header rest
unfolding act write_header write flush wire_write wire_write_header
act-IsAware rw (sets_type t) rest v h = (ground arith, h)
act-IsAware rw (writes_header code) rest v h = ground arith
act-IsAware rw (writes n) rest v h = ground arith
act-IsAware rw flushes rest v h = ground arith
act-IsAware rw hijacks rest v h = elim h [ ]

acts-IsAware :
    (rw : ResponseWriter) (rest : List Action)
    → IsAware rw
    → IsTame rw.wrote_header rest
    → IsAware (foldl act rw rest)
acts-IsAware rw [] v h = v
acts-IsAware rw (a ∷ rest) v h =
    let (w, k) = act-IsAware rw a rest v h in acts-IsAware (act rw a) rest w k

fresh-IsAware : IsAware fresh_writer
fresh-IsAware = ground arith

recovered-IsAware :
    (encoded : ℕ) (r : Request) (panics : Bool) (rw : ResponseWriter)
    → IsAware rw
    → IsAware (recovered encoded r panics rw)
unfolding recovered write_problem write_header write wire_write wire_write_header
recovered-IsAware encoded r panics rw v = ground arith

-- The metrics tell the truth for a request with a method other than HEAD, if the handler does not
-- hijack the connection, sets only codes from 100 to 999, and neither sets an informational one nor
-- flushes before it sets a status: panicking or not, the recorded status is the one that the client
-- gets, and the recorded size is the size of the body.
pub recorded_as_sent :
    (encoded : ℕ) (r : Request) (call : Call)
    → IsTame false call.actions
    → str_eq r.http_method "HEAD" ≡ false
    → let rw = serve encoded r call in
      (rw.status_code ≡ final_status rw.wire) × (rw.size ≡ rw.wire.body)
unfolding serve
recorded_as_sent encoded r call h m =
    let rw = foldl act fresh_writer call.actions in
    let v = acts-IsAware fresh_writer call.actions fresh-IsAware h in
    let w = recovered-IsAware encoded r call.panics rw v in
    (ground (arith, w.set, w.unset), w.sized)

answered :
    (encoded : ℕ) (r : Request) (panics : Bool) (rw : ResponseWriter)
    → IsAware rw
    → panics ≡ true
    → rw.wrote_header ≡ false
    → let out = recovered encoded r panics rw in
      (final_status out.wire ≡ 500)
      × (out.wire.sent_type ≡ some problem_content_type)
      × (out.wire.body ≡ rw.wire.body + encoded)
unfolding recovered write_problem write_header write wire_write wire_write_header
answered encoded r panics rw v p h = ground arith

left_alone :
    (encoded : ℕ) (r : Request) (panics : Bool) (rw : ResponseWriter)
    → rw.wrote_header ≡ true
    → recovered encoded r panics rw ≡ rw
unfolding recovered
left_alone encoded r panics rw h = ground (arith, h)

answered_or_left :
    (encoded : ℕ) (r : Request) (panics b : Bool) (rw : ResponseWriter)
    → IsAware rw
    → panics ≡ true
    → rw.wrote_header ≡ b
    → let out = recovered encoded r panics rw in
      ((rw.wrote_header ≡ false)
        × (final_status out.wire ≡ 500)
        × (out.wire.sent_type ≡ some problem_content_type)
        × (out.wire.body ≡ rw.wire.body + encoded))
      ⊎ ((rw.wrote_header ≡ true) × (out ≡ rw))
answered_or_left encoded r panics false w v p h =
    let (status, type, size) = answered encoded r panics w v p h in inl (h, status, type, size)
answered_or_left encoded r panics true w v p h = inr (h, left_alone encoded r panics w h)

-- For a request with a method other than HEAD and a handler that does not hijack the connection, sets
-- only codes from 100 to 999, neither sets an informational one nor flushes before it sets a status,
-- and then panics: either no status was set, and the client gets a problem document with status 500;
-- or one was, and the response stays as the handler left it.
pub panic_answered :
    (encoded : ℕ) (r : Request) (call : Call)
    → IsTame false call.actions
    → call.panics ≡ true
    → str_eq r.http_method "HEAD" ≡ false
    → let rw = foldl act fresh_writer call.actions in
      let out = serve encoded r call in
      ((rw.wrote_header ≡ false)
        × (final_status out.wire ≡ 500)
        × (out.wire.sent_type ≡ some problem_content_type)
        × (out.wire.body ≡ rw.wire.body + encoded))
      ⊎ ((rw.wrote_header ≡ true) × (out ≡ rw))
unfolding serve
panic_answered encoded r call h p m =
    let left = foldl act fresh_writer call.actions in
    let v = acts-IsAware fresh_writer call.actions fresh-IsAware h in
    answered_or_left encoded r call.panics left.wrote_header left v p refl

-- Where the wrapper is not told what is sent: a handler that only sends an informational status
-- and panics is answered with 200 and recorded with the informational code, and one that only
-- flushes and panics is answered with 200 and recorded with 500.
pub panic_misrecorded :
    (encoded code : ℕ) (r : Request)
    → is_informational code ≡ true
    → let informed =
        serve encoded r (record { actions = writes_header code ∷ []; panics = true }) in
      let flushed = serve encoded r (record { actions = flushes ∷ []; panics = true }) in
      (final_status informed.wire ≡ 200)
      × (informed.status_code ≡ code)
      × (final_status flushed.wire ≡ 200)
      × (flushed.status_code ≡ 500)
unfolding serve recovered act write_problem write_header write flush wire_write wire_write_header
panic_misrecorded encoded code r h =
    (ground (arith, h), ground (arith, h), ground arith, ground arith)
