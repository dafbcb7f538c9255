-- ===== src/Http/Context/RoundTrip.antt =====
-- HTTP/HttpContext.cpp: requests as a client writes them are read back.
use rabbit_server.Prelude.{
  ℕ, suc, ◌≡◌, inr, refl, ap, sym, ◌∙◌, true, List, [], ◌∷◌, ◌++◌, arith, Bytes, index_of, length,
  length-append, take-append_length, drop-append_cons_cons, Lacks, Lacks-append, find_crlf_line,
  is_space, ok, append-nil,
}
use rabbit_server.Dict.{insert}
use rabbit_server.Http.Request.Headers.{IsTrimmed, trim_padded}
use rabbit_server.Input.{byte_input}
use rabbit_server.Http.Request.{Version, HttpRequest, add_header, trim, swap}
use rabbit_server.Http.Context.Loop.{parse_loop_fuel}
use rabbit_server.Http.Context.{
  expect_request_line, expect_headers, got_all, HttpContext, finished, continues, parse_step,
  parse_loop, parse_request, reset,
}
use rabbit_server.Http.Context.Message.{
  Message, request_line, field_line, print_fields, print, AreFields, IsWellFormed, insert_all,
  start, complete_with,
}
use rabbit_server.Http.Context.RequestLine.{request_line-Lacks, process_request_line-print, splits}

module _ (now : ℕ) where
  -- One round over a whole line.
  goes :
      (c next : HttpContext) (line rest : Bytes)
      → Lacks b'\r' line
      → next.state ≡ expect_headers
      → parse_step byte_input now c.state c (line ++ (b'\r' ∷ b'\n' ∷ rest))
        ≡ ok (continues next rest)
      → parse_request byte_input now c (line ++ (b'\r' ∷ b'\n' ∷ rest))
        ≡ parse_request byte_input now next rest
  unfolding parse_request parse_loop
  goes c next line rest h st p =
      rw (p, parse_loop)
        (parse_loop_fuel byte_input now (length (line ++ (b'\r' ∷ b'\n' ∷ rest)))
          (suc (length rest)) next rest (inr st)
          (omega (arith, length-append line (b'\r' ∷ b'\n' ∷ rest))) (omega arith))

  line_step :
      (m : Message) (v : Version) (rest : Bytes)
      → IsWellFormed m
      → parse_step byte_input now expect_request_line
          (start v)
          (request_line m ++ (b'\r' ∷ b'\n' ∷ rest))
        ≡ ok (
            continues
              (record {
                state = expect_headers;
                request = record {
                  method = m.method;
                  version = m.version;
                  path = m.path;
                  query = m.query;
                  receive_time = now;
                  headers = [];
                };
              })
              rest)
  unfolding parse_step
  line_step m v rest w = rw (
    find_crlf_line (request_line m) rest (request_line-Lacks m w),
    take-append_length (request_line m) (b'\r' ∷ b'\n' ∷ rest),
    drop-append_cons_cons (request_line m) rest b'\r' b'\n',
    process_request_line-print m v w,
    parse_step,
  )

  header_step :
      (r : HttpRequest) (key value rest : Bytes)
      → Lacks b':' key
      → Lacks b'\r' (field_line key value)
      → IsTrimmed value
      → parse_step byte_input now expect_headers
          (record { state = expect_headers; request = r })
          (field_line key value ++ (b'\r' ∷ b'\n' ∷ rest))
        ≡ ok (
            continues
              (record {
                state = expect_headers;
                request = record r { headers = insert key value r.headers };
              })
              rest)
  unfolding parse_step add_header
  header_step r key value rest h k t =
      let s = splits b':' key (b' ' ∷ value) h in
      rw (
        find_crlf_line (field_line key value) rest k,
        take-append_length (field_line key value) (b'\r' ∷ b'\n' ∷ rest),
        drop-append_cons_cons (field_line key value) rest b'\r' b'\n',
        s.found,
        s.before,
        s.behind,
        trim_spaced value t,
        parse_step,
      )
    where
      trim_spaced : (value : Bytes) → IsTrimmed value → trim (b' ' ∷ value) ≡ value
      trim_spaced value t =
          unfold is_space in
          ap (λ v. trim (b' ' ∷ v)) (sym (append-nil value))
          ∙ trim_padded (b' ' ∷ []) value [] (refl, tt) tt t

  end_step :
      (r : HttpRequest) (rest : Bytes)
      → parse_step byte_input now expect_headers
          (record { state = expect_headers; request = r })
          (b'\r' ∷ b'\n' ∷ rest)
        ≡ ok (finished true (record { state = got_all; request = r }) rest)
  unfolding parse_step index_of
  end_step r rest = rw (find_crlf_line [] rest tt, parse_step)

  fields_loop :
      (fs : List (Bytes × Bytes)) (r : HttpRequest) (rest : Bytes)
      → AreFields fs
      → parse_request byte_input now
          (record { state = expect_headers; request = r })
          (print_fields fs rest)
        ≡ ok (
          true,
          record { state = got_all; request = record r { headers = insert_all fs r.headers } },
          rest,
        )
  fields_loop [] r rest h = unfold parse_request parse_loop in rw (end_step r rest, parse_loop)
  fields_loop ((key, value) ∷ fs) r rest h =
      let line =
        Lacks-append b'\r' key (b':' ∷ b' ' ∷ value) h.0.1 (omega arith, (omega arith, h.0.2)) in
      let r' : HttpRequest = record r { headers = insert key value r.headers } in
      goes (record { state = expect_headers; request = r })
        (record { state = expect_headers; request = r' }) (field_line key value)
        (print_fields fs rest) line refl
        (header_step r key value (print_fields fs rest) h.0.0 line h.0.3)
      ∙ fields_loop fs r' rest h.1

  -- The parser reads a well-formed request back: on a context that expects a request line and is as
  -- new but for its version, from the printed request line and fields, with any bytes behind them,
  -- `parseRequest` gives the method, path, query, version, receive time and the fields of the
  -- message, of fields with one name the last, ends in `kGotAll` and leaves exactly the bytes behind
  -- the request. Well-formed: a known method and version, a path without space, question mark or
  -- return, a query that is empty or starts with the question mark and has no space or return, names
  -- without colon or return, trimmed values without return.
  pub parse_request-print :
      (m : Message) (v : Version) (rest : Bytes)
      → IsWellFormed m
      → parse_request byte_input now (start v) (print m rest) ≡ ok (true, complete_with now m, rest)
  parse_request-print m v rest w =
      goes (start v) _ (request_line m) (print_fields m.fields rest) (request_line-Lacks m w) refl
        (line_step m v (print_fields m.fields rest) w)
      ∙ fields_loop m.fields _ rest w.fields_ok

-- `reset` leads back to such a context.
pub reset-start : (c : HttpContext) → reset c ≡ start c.request.version
unfolding reset swap
reset-start c = refl
