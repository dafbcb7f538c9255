-- ===== src/Sample.antt =====
-- test/main.cpp: the sample program's callback. What it prints is left out.
pub mod Favicon
pub mod Pages
mod Tests
use rabbit_server.Prelude.{ℕ, true, List, ◌++◌, if◌then◌else◌, Bytes, codes, equal}
use rabbit_server.Http.Request.{HttpRequest}
use rabbit_server.Http.Response
use rabbit_server.Http.Response.{
  HttpResponse, set_status_code, set_status_message, set_close_connection, set_body, add_header,
  set_content_type,
}
use rabbit_server.Http.Server.{HttpCallback}
use rabbit_server.Net.Timestamp.{to_string}
use rabbit_server.Sample.Favicon.{favicon}

unfoldable pub greeting : ℕ → Bytes
unfolding to_string
greeting now =
    codes "<html><head><title>This is title</title></head><body><h1>Hello</h1>Now is "
    ++ (to_string now ++ codes "</body></html>")

-- The three calls that every page but the last begins with.
abbrev pub begin_page : Bytes → HttpResponse → HttpResponse
begin_page content_type r =
    set_content_type content_type (set_status_message (codes "OK") (set_status_code Response.ok r))

-- `onRequest`; `now` is what the clock reads.
unfoldable pub sample : ℕ → HttpCallback
unfolding greeting add_header set_content_type
sample now request r =
    if equal request.path (codes "/")
    then set_body (greeting now)
        (add_header (codes "Server") (codes "Muduo") (begin_page (codes "text/html") r))
    else if equal request.path (codes "/favicon.ico")
    then set_body favicon (begin_page (codes "image/png") r)
    else if equal request.path (codes "/hello")
    then set_body (codes "hello, world!\n")
        (add_header (codes "Server") (codes "Muduo") (begin_page (codes "text/plain") r))
    else set_close_connection true
        (set_status_message (codes "Not Found") (set_status_code Response.not_found r))
