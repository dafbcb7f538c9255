-- ===== src/Http/Server/OnMessage.antt =====
-- HTTP/HttpServer.cpp: `onMessage` from the bytes of a message to the calls on the connection.
use rabbit_server.Prelude.{
  ℕ, suc, ◌-◌, ◌<◌, ◌≡◌, ◌⊎◌, inl, inr, refl, ap, sym, subst, ◌∙◌, Bool, true, false, some, [],
  ◌++◌, arith, Bytes, length, take, drop, index_of, find_crlf, Result, ok, fault, assertion,
  Bool-cases, find_crlf-append, ◌==◌, take-append_le, find_crlf-length, index_of-le,
}
use rabbit_server.Vector.{Allocator}
use rabbit_server.Input.{byte_input}
use rabbit_server.Buffer.Contents.{IsValid, IsTidy, retrieve-IsValid, retrieve-IsTidy}
use rabbit_server.Buffer.Input.{buffer_input}
use rabbit_server.Buffer.{Buffer, contents, retrieve, retrieve_until}
use rabbit_server.Http.Request.{HttpRequest, Version, is_valid}
use rabbit_server.Http.Context.Loop.{
  parse_request_aborts, parse_request_rejects, parse_loop_keeps, IsReady-IsActive,
}
use rabbit_server.Http.Context.Steps.{IsReady}
use rabbit_server.Http.Context.Readable.{parse_request-bytes, map_end}
use rabbit_server.Http.Context.RoundTrip.{parse_request-print, reset-start}
use rabbit_server.Http.Context.Message.{Message, IsWellFormed, print, start, complete_with}
use rabbit_server.Http.Context.{
  HttpContext, expect_request_line, parse_request, process_request_line,
}
use rabbit_server.Http.Server.{HttpCallback, on_request, refusal, on_message, after_parse}
use rabbit_server.Http.Server.EndsBlank.{EndsBlank, print-EndsBlank, ends_blank-contents}

-- What is left in the buffer keeps what each retrieving keeps.
parse_request_keeps :
    (P : Buffer → Type 0) (keeps : (b : Buffer) (n : ℕ) → P b → P (retrieve b n).0) (now : ℕ)
    (c : HttpContext) (b : Buffer) {good : Bool} {c' : HttpContext} {b' : Buffer}
    → IsReady c
    → P b
    → parse_request buffer_input now c b ≡ ok (good, c', b')
    → P b'
unfolding parse_request retrieve_until
parse_request_keeps P keeps now c b r v e =
    parse_loop_keeps buffer_input now P keeps (suc (length (contents b))) c b
      (IsReady-IsActive buffer_input now c r) v e

from_bytes :
    (r : Result (Bool × HttpContext × Buffer)) {c : HttpContext} {rest : Bytes}
    → map_end contents r ≡ ok (true, c, rest)
    → (b' : Buffer) × (r ≡ ok (true, c, b')) × (contents b' ≡ rest)
from_bytes (ok (good, c, b)) e = (b, cc, cc)
from_bytes (fault f) e = cc

-- The parser's part of a complete message.
parsed :
    (now : ℕ) (v : Version) (m : Message) (b : Buffer) (rest : Bytes)
    → IsWellFormed m
    → contents b ≡ print m rest
    → (b' : Buffer) × (parse_request buffer_input now (start v) b
        ≡ ok (true, complete_with now m, b'))
      × (contents b' ≡ rest)
parsed now v m b rest w e = from_bytes (parse_request buffer_input now (start v) b) (
    parse_request-bytes buffer_input now (start v) b
    ∙ ap (parse_request byte_input now (start v)) e
    ∙ parse_request-print now m v rest w)

-- What the server does with a complete request.
pub record Answered (a : Allocator) (callback : HttpCallback) (now : ℕ) (v : Version) (m : Message)
    (b : Buffer) (rest : Bytes) : Type 0 where
  pub buffer : Buffer
  pub result :
      on_message a callback now (start v) b
      ≡ ok (start m.version, buffer, on_request a callback (complete_with now m).request)
  pub left : contents buffer ≡ rest
  pub valid : IsValid buffer
  pub tidy : (memory : ℕ) → IsTidy memory b → IsTidy memory buffer

-- A line that set a method and was refused has a space behind a first word.
word_before :
    (line : Bytes) (r : HttpRequest) {r' : HttpRequest}
    → process_request_line line r ≡ ok (false, r')
    → is_valid r.method ≡ false
    → is_valid r'.method ≡ true
    → index_of b' ' line < length line
unfolding process_request_line
word_before line r {r'} e unset set = elim (Bool-cases (index_of b' ' line == length line)) [
  | inl bare ↦
      let q : ok (false, r) ≡ ok (false, r') = rw bare at e in
      let same : r ≡ r' = cc in
      let clash : is_valid r.method ≡ is_valid r'.method =
        ap (λ (x : HttpRequest). is_valid x.method) same in
      cc
  | inr spaced ↦ ground (arith, index_of-le b' ' line)
]

abbrev last_four : Buffer → Bytes
last_four b = take 4 (drop (b.write_index - 4) b.buffer.storage)

module _ (a : Allocator) (callback : HttpCallback) (now : ℕ) where
  -- A valid input buffer that holds a well-formed request, and behind it nothing or bytes that end
  -- with an empty line, with a context that expects a request line: `onMessage` returns, makes the
  -- calls on the connection that `onRequest` makes for the request as its client meant it, resets
  -- the context but for the version, and leaves the bytes behind the request, even a second request,
  -- in a valid buffer.
  pub on_message-Answered :
      (v : Version) (m : Message) (b : Buffer) (rest : Bytes)
      → IsValid b
      → IsWellFormed m
      → (rest ≡ []) ⊎ EndsBlank rest
      → contents b ≡ print m rest
      → Answered a callback now v m b rest
  unfolding on_message
  on_message-Answered v m b rest ok_b w ends e =
      let blank_end =
        ends_blank-contents b ok_b (subst EndsBlank (sym e) (print-EndsBlank m rest ends)) in
      let (b', p, left) = parsed now v m b rest w e in
      record {
        buffer = b';
        result = rw (blank_end, p, reset-start (complete_with now m));
        left = left;
        valid =
            parse_request_keeps IsValid retrieve-IsValid now (start v) b (inl (refl, refl)) ok_b p;
        tidy = λ memory t.
            parse_request_keeps (IsTidy memory) (retrieve-IsTidy memory) now (start v) b
              (inl (refl, refl)) t p;
      }

  -- On a context that expects a request line and has no method, a message whose request line is
  -- refused behind a known method is answered by 400 and a close, and it stays in the buffer with
  -- the method set. If the same bytes come up again with more behind them before the connection is
  -- closed, the assertion of `setMethod` fails. Both buffers are valid and end with an empty line.
  pub on_message_refused :
      (c : HttpContext) (request : HttpRequest) (b next : Buffer) (crlf : ℕ) (more : Bytes)
      → IsValid b
      → IsValid next
      → c.state ≡ expect_request_line
      → is_valid c.request.method ≡ false
      → find_crlf (contents b) ≡ some crlf
      → process_request_line (take crlf (contents b)) c.request ≡ ok (false, request)
      → is_valid request.method ≡ true
      → EndsBlank (contents b)
      → contents next ≡ contents b ++ more
      → EndsBlank (contents next)
      → (on_message a callback now c b ≡ ok (record c { request = request }, b, refusal))
        × (on_message a callback now (record c { request = request }) next ≡ fault assertion)
  unfolding on_message
  on_message_refused c request b next k more vb vn st unset f p set eb en e2 = (
    rw (ends_blank-contents b vb eb, parse_request_rejects buffer_input now c b k request st f p)
        (refused_end c st),
    rw (
      ends_blank-contents next vn e2,
      parse_request_aborts buffer_input now (record c { request = request }) next k st set
          (ap find_crlf en ∙ find_crlf-append (contents b) more k f)
          (subst (λ line. index_of b' ' line < length line) (sym same_line)
            (word_before (take k (contents b)) c.request p unset set)),
    ),
  )
    where
      same_line : take k (contents next) ≡ take k (contents b)
      same_line =
          ap (take k) en
          ∙ take-append_le k (contents b) more (omega (arith, find_crlf-length (contents b) k f))

      refused_end :
          (c : HttpContext)
          → c.state ≡ expect_request_line
          → ok (after_parse a callback (false, record c { request = request }, b))
            ≡ ok (record c { request = request }, b, refusal)
      refused_end c st = ground arith
