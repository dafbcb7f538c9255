-- ===== src/Http/Tests.antt =====
-- A request and buffers that hold it, and the theorems on HTTP/ applied to them.
mod Connection
use rabbit_server.Prelude.{
  replicate, ◌++◌, ap, ◌∙◌, ◌-◌, drop, length-append, drop-append_length, ◌≡◌, inl, refl, true,
  false, some, List, [], ◌∷◌, arith, Bytes, codes, equal, length, index_of, find_crlf, is_space,
  decimal, ok, fault, assertion, out_of_fuel, if◌then◌else◌,
}
use rabbit_server.Vector.{doubling}
use rabbit_server.Input.{byte_input}
use rabbit_server.Buffer.Contents.{IsValid}
use rabbit_server.Buffer.{Buffer, contents, init}
use rabbit_server.Dict.{IsSorted}
use rabbit_server.Http.Request.Headers.{Trimmed, trim-Trimmed, IsTrimmed, get_header-add_header}
use rabbit_server.Http.Request.{
  HttpRequest, get, unknown, http10, http11, fresh, set_method, method_of, method_string, trim,
  add_header, get_header,
}
use rabbit_server.Http.Context.Loop.{parse_loop_stuck}
use rabbit_server.Http.Context.Resume.{parse_request-append}
use rabbit_server.Http.Context.RoundTrip.{parse_request-print}
use rabbit_server.Http.Context.Message.{Message, print, IsWellFormed, start, complete_with}
use rabbit_server.Http.Context.{
  HttpContext, expect_headers, got_all, new_context, process_request_line, parse_request,
  parse_loop,
}
use rabbit_server.Http.Response.Render.{head_text, render, contents-append_to_buffer}
use rabbit_server.Http.Response.{
  HttpResponse, new_response, append_to_buffer, status_line, content_length, head_pieces,
}
use rabbit_server.Http.Server.OnMessage.{Answered, on_message-Answered, on_message_refused}
use rabbit_server.Http.Server.EndsBlank.{EndsBlank}
use rabbit_server.Http.Server.Pieces.{Arrives, last, more, Delivered, deliver-Delivered}
use rabbit_server.Http.Server.{on_message, default_http_callback, refusal}

abbrev hello : Message
hello = record {
  method = get;
  path = codes "/a";
  query = codes "?b";
  version = http11;
  fields = (codes "Host", codes "x") ∷ [];
}

host-IsTrimmed : IsTrimmed (codes "x")
unfolding is_space
host-IsTrimmed = record { starts_plain = refl; ends_plain = refl }

hello-IsWellFormed : IsWellFormed hello
hello-IsWellFormed = record {
  method_valid = refl;
  version_known = λ e. cc;
  path_no_space = omega arith;
  path_no_question = omega arith;
  path_no_return = omega arith;
  query_ok = (refl, omega arith, omega arith);
  fields_ok = ((omega arith, omega arith, omega arith, host-IsTrimmed), tt);
}

-- A buffer with all of its bytes readable.
abbrev holding : Bytes → Buffer
holding s = record {
  buffer = record { storage = s; size = length s };
  read_index = 0;
  write_index = length s;
}

abbrev hello_buffer : Buffer
hello_buffer = holding (print hello [])

hello_buffer-IsValid : IsValid hello_buffer
hello_buffer-IsValid = record {
  read-le-write = omega arith;
  write-le-capacity = omega arith;
  size-le-capacity = omega arith;
}

on_message-Answered_example :
    Answered doubling default_http_callback 7 unknown hello hello_buffer []
unfolding method_string
on_message-Answered_example =
    on_message-Answered doubling default_http_callback 7 unknown hello hello_buffer []
      hello_buffer-IsValid hello-IsWellFormed (inl refl) refl

parse_request-print_example :
    parse_request byte_input 7 (start http10) (print hello (codes "rest"))
    ≡ ok (true, complete_with 7 hello, codes "rest")
parse_request-print_example = parse_request-print 7 hello http10 (codes "rest") hello-IsWellFormed

-- A request whose version is not known.
abbrev refused_buffer : Buffer
refused_buffer = holding (codes "GET / HTTP/2.0\r\n\r\n")

abbrev refused_again : Buffer
refused_again = holding (codes "GET / HTTP/2.0\r\n\r\n\r\n\r\n")

refused_buffer-IsValid : IsValid refused_buffer
refused_buffer-IsValid = record {
  read-le-write = omega arith;
  write-le-capacity = omega arith;
  size-le-capacity = omega arith;
}

refused_again-IsValid : IsValid refused_again
refused_again-IsValid = record {
  read-le-write = omega arith;
  write-le-capacity = omega arith;
  size-le-capacity = omega arith;
}

abbrev refused_request : HttpRequest
refused_request = record fresh { method = get; path = codes "/" }

refused_line : process_request_line (codes "GET / HTTP/2.0") fresh ≡ ok (false, refused_request)
unfolding process_request_line set_method method_of equal index_of
refused_line = refl

refused_end : find_crlf (contents refused_buffer) ≡ some 14
unfolding find_crlf
refused_end = refl

on_message_refused_example :
    (on_message doubling default_http_callback 7 new_context refused_buffer
      ≡ ok (record new_context { request = refused_request }, refused_buffer, refusal))
    × (on_message doubling default_http_callback 7
          (record new_context { request = refused_request })
          refused_again
        ≡ fault assertion)
on_message_refused_example =
    on_message_refused doubling default_http_callback 7 new_context refused_request refused_buffer
      refused_again 14 (codes "\r\n\r\n") refused_buffer-IsValid refused_again-IsValid refl refl
      refused_end refused_line refl (codes "GET / HTTP/2.0", refl) refl
      (codes "GET / HTTP/2.0\r\n\r\n", refl)

-- The first line of a request, and then the rest.
abbrev half_read : HttpContext
half_read = record {
  state = expect_headers;
  request = record fresh { method = get; path = codes "/"; version = http11; receive_time = 7 };
}

half_parsed :
    parse_request byte_input 7 new_context (codes "GET / HTTP/1.1\r\nHo")
    ≡ ok (true, half_read, codes "Ho")
unfolding parse_request find_crlf process_request_line set_method method_of equal index_of
half_parsed = refl

parse_request-append_example :
    parse_request byte_input 7 new_context (codes "GET / HTTP/1.1\r\nHost: x\r\n\r\n")
    ≡ parse_request byte_input 9 half_read (codes "Host: x\r\n\r\n")
parse_request-append_example =
    parse_request-append 7 9 new_context half_read (codes "GET / HTTP/1.1\r\nHo") (codes "Ho")
      (codes "st: x\r\n\r\n") (inl refl) half_parsed (λ e. cc)

abbrev found : HttpResponse
found = record (new_response false) { body = codes "hi" }

found_head : length (head_text found) ≡ 58
unfolding head_pieces status_line content_length decimal
found_head = refl

-- A buffer with room, and the request in two pieces.
abbrev empty_buffer : Buffer
empty_buffer = record {
  buffer = record { storage = replicate 64 0; size = 64 };
  read_index = 0;
  write_index = 0;
}

empty_buffer-IsValid : IsValid empty_buffer
empty_buffer-IsValid = record {
  read-le-write = omega arith;
  write-le-capacity = omega arith;
  size-le-capacity = omega arith;
}

abbrev two_pieces : List Bytes
two_pieces = codes "GET /a?b HT" ∷ codes "TP/1.1\r\nHost: x\r\n\r\n" ∷ []

EndsBlank-drop : (s : Bytes) → EndsBlank s → drop (length s - 4) s ≡ codes "\r\n\r\n"
EndsBlank-drop s (front, e) =
    ap (λ x. drop (length x - 4) x) e
    ∙ ap (λ n. drop n (front ++ codes "\r\n\r\n"))
        (omega (arith, length-append front (codes "\r\n\r\n")))
    ∙ drop-append_length front (codes "\r\n\r\n")

no_end : EndsBlank (codes "GET /a?b HT") → ⊥
no_end x = let bad : codes "b HT" ≡ codes "\r\n\r\n" = EndsBlank-drop (codes "GET /a?b HT") x in cc

two_pieces-Arrives : Arrives (print hello []) [] two_pieces
unfolding method_string
two_pieces-Arrives = more (omega arith) no_end (last refl)

deliver-Delivered_example :
    Delivered doubling default_http_callback 7 unknown hello empty_buffer two_pieces
deliver-Delivered_example =
    deliver-Delivered doubling default_http_callback 7 unknown hello empty_buffer two_pieces
      empty_buffer-IsValid hello-IsWellFormed (omega arith) two_pieces-Arrives
