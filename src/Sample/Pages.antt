-- ===== src/Sample/Pages.antt =====
-- test/main.cpp on HTTP/HttpServer.cpp: the pages that the sample program serves.
use rabbit_server.Prelude.{
  ℕ, ◌+◌, ◌^◌, ◌≤◌, ◌<◌, ◌≡◌, refl, Bool, true, false, [], ◌∷◌, ◌++◌, arith, if◌then◌else◌, Bytes,
  codes, equal, length, length-append, length-take, append_assoc, ap, decimal, ◌/◌, ◌%◌, Bool-cases,
  inl, inr, not, ◌||◌,
}
use rabbit_server.Dict.{insert, less}
use rabbit_server.Vector.{Allocator}
use rabbit_server.Buffer.{default_init_size}
use rabbit_server.Http.Request.{HttpRequest}
use rabbit_server.Http.Response.{
  HttpResponse, new_response, not_found, set_body, set_close_connection, set_status_message,
  set_status_code, add_header, set_content_type, status_line, content_length,
}
use rabbit_server.Http.Response.Render.{
  header_text, render, length-head_text, contents-append_to_buffer,
}
use rabbit_server.Http.Server.{send, close_connection, wants_close, on_request}
use rabbit_server.Net.Timestamp.{to_string, padded, microseconds_per_second}
use rabbit_server.Sample.Favicon.{favicon}
use rabbit_server.Sample.{greeting, begin_page, sample}

-- A page of a kind, with the `Server` header or without it.
abbrev page : Bool → Bytes → Bytes → Bytes → Bytes
page close content_type server body =
    codes "HTTP/1.1 200 OK\r\n"
    ++ ((if close
          then codes "Connection: close\r\n"
          else (codes "Content-Length: " ++ (decimal (length body) ++ codes "\r\n"))
            ++ codes "Connection: Keep-Alive\r\n")
        ++ (codes "Content-Type: "
            ++ (content_type ++ (codes "\r\n" ++ (server ++ (codes "\r\n" ++ body))))))

abbrev server_line : Bytes
server_line = codes "Server: Muduo\r\n"

-- The bytes of the answer to a request for a path.
abbrev pub answer : ℕ → Bool → Bytes → Bytes
answer now close path =
    if equal path (codes "/")
    then page close (codes "text/html") server_line (greeting now)
    else if equal path (codes "/favicon.ico")
    then page close (codes "image/png") [] favicon
    else if equal path (codes "/hello")
    then page close (codes "text/plain") server_line (codes "hello, world!\n")
    else codes "HTTP/1.1 404 Not Found\r\nConnection: close\r\n\r\n"

-- The paths that the sample program knows.
abbrev pub is_known : Bytes → Bool
is_known path =
    if equal path (codes "/")
    then true
    else if equal path (codes "/favicon.ico")
    then true
    else equal path (codes "/hello")

to_string-short : (now : ℕ) → length (to_string now) ≤ 30
unfolding to_string
to_string-short now = omega (arith, length-take 30 (whole now))
  where
    whole : ℕ → Bytes
    whole now =
        decimal (now / microseconds_per_second) ++ (b'.' ∷ padded (now % microseconds_per_second))

greeting-short : (now : ℕ) → length (greeting now) ≤ 120
unfolding greeting
greeting-short now =
    omega (arith, to_string-short now, length-append (to_string now) (codes "</body></html>"))

-- What is known of a response.
record Responds (r : HttpResponse) (text : Bytes) (closes : Bool) : Type 0 where
  small_body : length r.body < 2 ^ 31
  small_head : length r.status_message + length (header_text r.headers) ≤ 900
  rendered : render r ≡ text
  closed : r.close_connection ≡ closes

greeting-Responds :
    (now : ℕ) (close : Bool)
    → Responds
        (set_body (greeting now) (
          add_header
            (codes "Server")
            (codes "Muduo")
            (begin_page (codes "text/html") (new_response close))))
        (page close (codes "text/html") server_line (greeting now))
        close
unfolding add_header set_content_type insert equal less status_line content_length decimal
greeting-Responds now true = record {
  small_body = omega (arith, greeting-short now);
  small_head = omega arith;
  rendered = refl;
  closed = refl;
}
greeting-Responds now false = record {
  small_body = omega (arith, greeting-short now);
  small_head = omega arith;
  rendered =
      ap (λ t. codes "HTTP/1.1 200 OK\r\n" ++ t)
        (append_assoc
          ((codes "Content-Length: " ++ (decimal (length (greeting now)) ++ codes "\r\n"))
            ++ codes "Connection: Keep-Alive\r\n")
          (codes "Content-Type: text/html\r\nServer: Muduo\r\n\r\n") (greeting now));
  closed = refl;
}

favicon-Responds :
    (close : Bool)
    → Responds
        (set_body favicon (begin_page (codes "image/png") (new_response close)))
        (page close (codes "image/png") [] favicon)
        close
unfolding add_header set_content_type insert equal less status_line content_length decimal
favicon-Responds true = record {
  small_body = omega arith;
  small_head = omega arith;
  rendered = refl;
  closed = refl;
}
favicon-Responds false = record {
  small_body = omega arith;
  small_head = omega arith;
  rendered = refl;
  closed = refl;
}

hello-Responds :
    (close : Bool)
    → Responds
        (set_body (codes "hello, world!\n") (
          add_header
            (codes "Server")
            (codes "Muduo")
            (begin_page (codes "text/plain") (new_response close))))
        (page close (codes "text/plain") server_line (codes "hello, world!\n"))
        close
unfolding add_header set_content_type insert equal less status_line content_length decimal
hello-Responds true = record {
  small_body = omega arith;
  small_head = omega arith;
  rendered = refl;
  closed = refl;
}
hello-Responds false = record {
  small_body = omega arith;
  small_head = omega arith;
  rendered = refl;
  closed = refl;
}

not_found-Responds :
    (close : Bool)
    → Responds
        (set_close_connection true
          (set_status_message (codes "Not Found") (set_status_code not_found (new_response close))))
        (codes "HTTP/1.1 404 Not Found\r\nConnection: close\r\n\r\n")
        true
unfolding status_line decimal
not_found-Responds close = record {
  small_body = omega arith;
  small_head = omega arith;
  rendered = refl;
  closed = refl;
}

sample-Responds :
    (now : ℕ) (close : Bool) (r : HttpRequest)
    → Responds
        (sample now r (new_response close))
        (answer now close r.path)
        (not (is_known r.path) || close)
unfolding sample
sample-Responds now close r = elim (Bool-cases (equal r.path (codes "/"))) [
  | inl home ↦ rw home (greeting-Responds now close)
  | inr n ↦ elim (Bool-cases (equal r.path (codes "/favicon.ico"))) [
    | inl icon ↦ rw (n, icon) (favicon-Responds close)
    | inr m ↦ elim (Bool-cases (equal r.path (codes "/hello"))) [
      | inl hello ↦ rw (n, m, hello) (hello-Responds close)
      | inr other ↦ rw (n, m, other) (not_found-Responds close)
    ]
  ]
]

-- The sample program answers each request with one send: the home page with the clock's time, the
-- icon and the greeting for their paths, with the length of the body or with the announcement of a
-- close as the request wants, and for every other path a page that is not found, which closes the
-- connection; it closes the connection exactly behind these and behind answers that announce it.
pub on_request-Sampled :
    (a : Allocator) (now : ℕ) (r : HttpRequest)
    → on_request a (sample now) r
      ≡ send (answer now (wants_close r) r.path)
        ∷ (if not (is_known r.path) || wants_close r then close_connection ∷ [] else [])
unfolding on_request
on_request-Sampled a now r =
    let response = sample now r (new_response (wants_close r)) in
    let facts = sample-Responds now (wants_close r) r in
    let fits =
      contents-append_to_buffer a response default_init_size
        (omega (arith, length-head_text response facts.small_body, facts.small_head))
        facts.small_body in
    rw (fits, facts.rendered, facts.closed) refl
