-- ===== src/Http/Context.antt =====
-- HTTP/HttpContext.h and HTTP/HttpContext.cpp: the parser of requests. It uses an input buffer
-- through `peek`, `findCLRF`, `retrieveUntill` alone, which is the interface below; positions are
-- offsets from `peek()`. The `while` loop takes fuel, one unit for each round.
pub mod Steps
pub mod Loop
pub mod Message
pub mod Readable
pub mod Resume
pub mod RequestLine
pub mod RoundTrip
use rabbit_server.Prelude.{
  ℕ, zero, suc, ◌+◌, ◌≡◌, Bool, true, false, ◌&&◌, Option, none, some, List, [], ◌∷◌, if◌then◌else◌,
  ◌==◌, Bytes, codes, equal, index_of, find_crlf, length, take, drop, Result, ok, fault,
  out_of_fuel, ◌>>=◌,
}
use rabbit_server.Input.{Input}
use rabbit_server.Http.Request.{
  HttpRequest, Version, unknown, http10, http11, fresh, set_method, set_version, set_path,
  set_query, set_receive_time, add_header, swap,
}

pub data State : Type 0 where
  expect_request_line expect_headers expect_body got_all : State

pub record HttpContext : Type 0 where
  pub state : State
  pub request : HttpRequest

abbrev pub new_context : HttpContext
new_context = record { state = expect_request_line; request = fresh }

-- `gotAll`.
abbrev pub is_got_all : State → Bool
is_got_all got_all = true
is_got_all _ = false

-- `reset`: the request is swapped with a fresh one, which leaves its version.
unfoldable pub reset : HttpContext → HttpContext
reset c = record { state = expect_request_line; request = swap c.request fresh }

abbrev set_target : Bytes → HttpRequest → HttpRequest
set_target target r =
    let question = index_of b'?' target in
    if question == length target
    then set_path target r
    else set_query (drop question target) (set_path (take question target) r)

process_version : Bytes → HttpRequest → Bool × HttpRequest
process_version text r =
    if (length text == 8) && equal (take 7 text) (codes "HTTP/1.")
    then if equal (drop 7 text) (codes "1")
      then (true, set_version http11 r)
      else if equal (drop 7 text) (codes "0")
      then (true, set_version http10 r)
      else (false, r)
    else (false, r)

-- From the target on.
process_target : Bytes → HttpRequest → Bool × HttpRequest
process_target rest r =
    let space = index_of b' ' rest in
    if space == length rest
    then (false, r)
    else process_version (drop (space + 1) rest) (set_target (take space rest) r)

unfoldable pub process_request_line : Bytes → HttpRequest → Result (Bool × HttpRequest)
unfolding process_target process_version
process_request_line line r =
    let space = index_of b' ' line in
    if space == length line
    then ok (false, r)
    else set_method (take space line) r >>= λ (valid, r').
        ok (if valid then process_target (drop (space + 1) line) r' else (false, r'))

-- A round of the loop ends it, with the value of `ok`, or leads to the next.
pub data Progress (B : Type 0) : Type 0 where
  finished : Bool → HttpContext → B → Progress B
  continues : HttpContext → B → Progress B

module _ {B : Type 0} (input : Input B) (now : ℕ) where
  read_request_line : HttpContext → B → Option ℕ → Result (Progress B)
  read_request_line c b none = ok (finished true c b)
  read_request_line c b (some crlf) =
      process_request_line (take crlf (input.bytes b)) c.request >>= λ (good, r). ok (
        if good
        then continues (record { state = expect_headers; request = set_receive_time now r })
            (input.consume b (crlf + 2))
        else finished false (record c { request = r }) b)

  read_header : HttpContext → B → Option ℕ → Result (Progress B)
  read_header c b none = ok (finished true c b)
  read_header c b (some crlf) =
      let line = take crlf (input.bytes b) in
      let colon = index_of b':' line in
      ok (
        if colon == length line
        then finished true (record c { state = got_all }) (input.consume b (crlf + 2))
        else continues
            (record c { request = add_header (take colon line) (drop (colon + 1) line) c.request })
            (input.consume b (crlf + 2)))

  -- The states `expect_body` and `got_all` do nothing, and go round again.
  pub parse_step : State → HttpContext → B → Result (Progress B)
  unfolding read_request_line read_header
  parse_step expect_request_line c b = read_request_line c b (find_crlf (input.bytes b))
  parse_step expect_headers c b = read_header c b (find_crlf (input.bytes b))
  parse_step expect_body c b = ok (continues c b)
  parse_step got_all c b = ok (continues c b)

  pub parse_loop : ℕ → HttpContext → B → Result (Bool × HttpContext × B)
  parse_loop zero c b = fault out_of_fuel
  parse_loop (suc fuel) c b =
      parse_step c.state c b
      >>= elim [ finished good c' b' ↦ ok (good, c', b') | continues c' b' ↦ parse_loop fuel c' b' ]

  -- `parseRequest`: every round takes two bytes, or is the last.
  unfoldable pub parse_request : HttpContext → B → Result (Bool × HttpContext × B)
  unfolding parse_loop parse_step
  parse_request c b = parse_loop (suc (length (input.bytes b))) c b
