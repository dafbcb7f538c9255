-- ===== src/Http/Server.antt =====
-- HTTP/HttpServer.h and HTTP/HttpServer.cpp. The user's callback is a parameter; what a handler does
-- to its connection is the list of the calls that it makes on it.
pub mod EndsBlank
pub mod OnMessage
pub mod Pieces
use rabbit_server.Prelude.{
  ℕ, ◌+◌, ◌-◌, Bool, true, false, not, ◌&&◌, ◌||◌, Option, none, some, List, [], ◌∷◌, ◌++◌,
  if◌then◌else◌, Bytes, codes, equal, ltb, length, take, drop, Result, ok, fault, out_of_bounds,
  ◌>>=◌,
}
use rabbit_server.Vector.{Allocator}
use rabbit_server.Buffer.{Buffer, contents, retrieve_until, init, default_init_size}
use rabbit_server.Buffer.Input.{buffer_input}
use rabbit_server.Http.Request.{HttpRequest, Version, unknown, http10, http11, get_header}
use rabbit_server.Http.Response
use rabbit_server.Http.Response.{
  HttpResponse, new_response, append_to_buffer, set_close_connection, set_status_message,
  set_status_code,
}
use rabbit_server.Http.Context.{HttpContext, new_context, is_got_all, reset, parse_request}

abbrev pub HttpCallback : Type 0
HttpCallback = HttpRequest → HttpResponse → HttpResponse

-- `defaultHttpCallback`.
unfoldable pub default_http_callback : HttpCallback
default_http_callback request response =
    set_close_connection true
      (set_status_message (codes "Not Found") (set_status_code Response.not_found response))

-- `conn->send` and `conn->closeConnection`.
pub data Action : Type 0 where
  send : Bytes → Action
  close_connection : Action

-- `onConnection`: a new context for a connection that is established.
unfoldable pub on_connection : Bool → Option HttpContext → Option HttpContext
on_connection established context = if established then some new_context else context

-- The last four bytes in front of the write index, compared with an empty line's.
unfoldable pub ends_blank : Buffer → Result Bool
ends_blank b =
    if ltb b.write_index 4
    then fault out_of_bounds
    else ok (equal (take 4 (drop (b.write_index - 4) b.buffer.storage)) (codes "\r\n\r\n"))

abbrev is_http10 : Version → Bool
is_http10 http10 = true
is_http10 _ = false

unfoldable pub wants_close : HttpRequest → Bool
wants_close r =
    let connection = get_header (codes "Connection") r in
    equal connection (codes "close")
    || (is_http10 r.version && not (equal connection (codes "Keep-Alive")))

unfoldable pub on_request : Allocator → HttpCallback → HttpRequest → List Action
on_request a callback request =
    let response = callback request (new_response (wants_close request)) in
    let buf = append_to_buffer a response (init default_init_size) in
    send (contents buf) ∷ (if response.close_connection then close_connection ∷ [] else [])

abbrev pub refusal : List Action
refusal = send (codes "HTTP/1.1 400 Bad Request\r\n\r\n") ∷ close_connection ∷ []

-- What `onMessage` does once `parseRequest` has returned.
after_parse :
    Allocator → HttpCallback → Bool × HttpContext × Buffer → HttpContext × Buffer × List Action
after_parse a callback (good, c, b) =
    let refused = if good then [] else refusal in
    if is_got_all c.state
    then (reset c, b, refused ++ on_request a callback c.request)
    else (c, b, refused)

-- `onMessage`: the context and the input buffer that it leaves, and its calls on the connection.
unfoldable pub on_message :
    Allocator
    → HttpCallback
    → ℕ
    → HttpContext
    → Buffer
    → Result (HttpContext × Buffer × List Action)
unfolding after_parse
on_message a callback now c b = ends_blank b >>= λ complete.
    let parsed = parse_request buffer_input now c b >>= λ r. ok (after_parse a callback r) in
    if complete then parsed else ok (c, b, [])
