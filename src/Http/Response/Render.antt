-- ===== src/Http/Response/Render.antt =====
-- HTTP/HttpResponse.cpp: the bytes of a response.
use rabbit_server.Prelude.{
  ℕ, suc, ◌+◌, ◌^◌, ◌≤◌, ◌<◌, ◌≡◌, inr, refl, ap, sym, ◌∙◌, List, [], ◌∷◌, ◌++◌, arith, Bytes,
  codes, length, length-append, take-length, append_assoc, append-nil, decimal, length-decimal, ap₂,
  Bool-cases, if◌then◌else◌, inl,
}
use rabbit_server.Vector.{Allocator, capacity}
use rabbit_server.Buffer.Contents.{IsValid, init-IsValid, init_facts}
use rabbit_server.Buffer.Append.{
  contents-append, append_fits, store-IsValid, contents-store, length-write_at,
}
use rabbit_server.Buffer.{Buffer, contents, writable_bytes, init, store, default_init_size}
use rabbit_server.Dict.{Dict}
use rabbit_server.Http.Response.{
  header_pieces, connection_pieces, HttpResponse, StatusCode, unknown, code_of, status_line,
  content_length, snprintf32, crlf, head_pieces, append_all, append_to_buffer,
}

abbrev pub concat : List Bytes → Bytes
concat [] = []
concat (s ∷ ss) = s ++ concat ss

-- The bytes of a response, with no limit on a line.
abbrev pub connection_text : HttpResponse → Bytes
connection_text r =
    if r.close_connection
    then codes "Connection: close\r\n"
    else content_length r ++ codes "Connection: Keep-Alive\r\n"

abbrev pub header_text : Dict Bytes → Bytes
header_text [] = []
header_text ((key, value) ∷ m) = key ++ (codes ": " ++ (value ++ (crlf ++ header_text m)))

abbrev pub head_text : HttpResponse → Bytes
head_text r =
    status_line r
    ++ (r.status_message ++ (crlf ++ (connection_text r ++ (header_text r.headers ++ crlf))))

abbrev pub render : HttpResponse → Bytes
render r = head_text r ++ r.body

status_line_short : (r : HttpResponse) → length (status_line r) ≤ 31
unfolding status_line
status_line_short r = short (code_of r.status_code) (code_bound r.status_code)
  where
    code_bound : (c : StatusCode) → code_of c < 10 ^ suc 9
    code_bound unknown = omega arith
    code_bound _ = omega arith

    short : (n : ℕ) → n < 10 ^ suc 9 → length (codes "HTTP/1.1 " ++ (decimal n ++ codes " ")) ≤ 31
    short n h = omega (arith, length-decimal 9 n h, length-append (decimal n) (codes " "))

status_line_whole : (r : HttpResponse) → snprintf32 (status_line r) ≡ status_line r
status_line_whole r = take-length (status_line r) 31 (status_line_short r)

content_length_whole :
    (r : HttpResponse) → length r.body < 2 ^ 31 → snprintf32 (content_length r) ≡ content_length r
unfolding content_length
content_length_whole r h = take-length (content_length r) 31 (
    omega (
      arith,
      length-decimal 9 (length r.body) (omega arith),
      length-append (decimal (length r.body)) crlf,
    ))

length-connection_text :
    (r : HttpResponse) → length r.body < 2 ^ 31 → length (connection_text r) ≤ 53
unfolding content_length
length-connection_text r h = elim (Bool-cases r.close_connection) [
  | inl close ↦ rw close (omega arith)
  | inr keep ↦ rw keep (
      omega (
        arith,
        length-decimal 9 (length r.body) (omega arith),
        length-append (decimal (length r.body)) crlf,
        length-append (decimal (length r.body) ++ crlf) (codes "Connection: Keep-Alive\r\n"),
      ))
]

-- A response's head is as long as its status message and its headers, and little more.
pub length-head_text :
    (r : HttpResponse)
    → length r.body < 2 ^ 31
    → length (head_text r) ≤ length r.status_message + length (header_text r.headers) + 88
length-head_text r h = omega (
  arith,
  status_line_short r,
  length-connection_text r h,
  length-append (status_line r)
      (r.status_message ++ (crlf ++ (connection_text r ++ (header_text r.headers ++ crlf)))),
  length-append r.status_message (crlf ++ (connection_text r ++ (header_text r.headers ++ crlf))),
  length-append (connection_text r) (header_text r.headers ++ crlf),
  length-append (header_text r.headers) crlf,
)

concat-append : (ss ts : List Bytes) → concat (ss ++ ts) ≡ concat ss ++ concat ts
concat-append [] ts = refl
concat-append (s ∷ ss) ts =
    ap (◌++◌ s) (concat-append ss ts) ∙ sym (append_assoc s (concat ss) (concat ts))

concat-header_pieces : (m : Dict Bytes) → concat (header_pieces m) ≡ header_text m
concat-header_pieces [] = refl
concat-header_pieces ((key, value) ∷ m) =
    ap (λ t. key ++ (codes ": " ++ (value ++ (crlf ++ t)))) (concat-header_pieces m)

concat-connection_pieces :
    (r : HttpResponse) → length r.body < 2 ^ 31 → concat (connection_pieces r) ≡ connection_text r
unfolding content_length
concat-connection_pieces r h = elim (Bool-cases r.close_connection) [
  | inl close ↦ rw close refl
  | inr keep ↦
      rw keep (ap (λ l. l ++ codes "Connection: Keep-Alive\r\n") (content_length_whole r h))
]

-- Neither `snprintf` cuts its line.
concat-head_pieces :
    (r : HttpResponse) → length r.body < 2 ^ 31 → concat (head_pieces r) ≡ head_text r
unfolding head_pieces
concat-head_pieces r h =
    ap₂ (λ l t. l ++ (r.status_message ++ (crlf ++ t))) (status_line_whole r)
      (concat-append (connection_pieces r) (header_pieces r.headers ++ crlf ∷ [])
        ∙ ap₂ (◌++◌) (concat-connection_pieces r h) (
            concat-append (header_pieces r.headers) (crlf ∷ [])
            ∙ ap (λ t. t ++ crlf) (concat-header_pieces r.headers)))

-- What a run of appends that fit leaves.
record Appended (b b' : Buffer) (s : Bytes) : Type 0 where
  valid : IsValid b'
  contents_eq : contents b' ≡ contents b ++ s
  size_eq : b'.buffer.size ≡ b.buffer.size
  write_eq : b'.write_index ≡ b.write_index + length s
  capacity_eq : capacity b'.buffer ≡ capacity b.buffer

append_all-Appended :
    (a : Allocator) (b : Buffer) (ss : List Bytes)
    → IsValid b
    → length (concat ss) ≤ writable_bytes b
    → Appended b (append_all a b ss) (concat ss)
append_all-Appended a b [] v h = record {
  valid = v;
  contents_eq = sym (append-nil (contents b));
  size_eq = refl;
  write_eq = omega arith;
  capacity_eq = refl;
}
append_all-Appended a b (s ∷ ss) v h =
    let fits : length s ≤ writable_bytes b = omega (arith, length-append s (concat ss)) in
    let stored =
      length-write_at b.buffer.storage s b.write_index (omega (arith, fits, v.write-le-capacity)) in
    rw (append_fits a b s fits) (
      let rest =
        append_all-Appended a (store b s) ss (store-IsValid b v s fits)
          (omega (arith, stored, h, length-append s (concat ss))) in
      record {
        valid = rest.valid;
        contents_eq =
            rest.contents_eq
            ∙ ap (λ c. c ++ concat ss) (contents-store b v s fits)
            ∙ append_assoc (contents b) s (concat ss);
        size_eq = rest.size_eq;
        write_eq = omega (arith, rest.write_eq, length-append s (concat ss));
        capacity_eq = rest.capacity_eq ∙ stored;
      })

-- The body arrives whole, whatever its length, if the head fits into the vector as it is.
contents-append_to_buffer_fits :
    (a : Allocator) (r : HttpResponse) (b : Buffer)
    → IsValid b
    → b.write_index + length (concat (head_pieces r)) ≤ b.buffer.size
    → contents (append_to_buffer a r b) ≡ contents b ++ (concat (head_pieces r) ++ r.body)
unfolding append_to_buffer
contents-append_to_buffer_fits a r b v h =
    let head = append_all-Appended a b (head_pieces r) v (omega (arith, h, v.size-le-capacity)) in
    contents-append a (append_all a b (head_pieces r)) r.body head.valid
      (inr (inr (omega (arith, head.write_eq, head.size_eq, h))))
    ∙ ap (λ c. c ++ r.body) head.contents_eq
    ∙ append_assoc (contents b) (concat (head_pieces r)) r.body

-- A response with a body below 2^31 bytes, whose status line and headers fit into 1024 bytes,
-- arrives in a new buffer whole: the status line, the connection header, with the content length
-- unless the connection is to be closed, the headers in the order of the map, an empty line and the
-- body. Neither `snprintf` cuts its line, and the body may be longer than the buffer.
pub contents-append_to_buffer :
    (a : Allocator) (r : HttpResponse) (n : ℕ)
    → length (head_text r) ≤ default_init_size
    → length r.body < 2 ^ 31
    → contents (append_to_buffer a r (init n)) ≡ render r
contents-append_to_buffer a r n h k =
    let facts = init_facts n in
    let e = concat-head_pieces r k in
    contents-append_to_buffer_fits a r (init n) (init-IsValid n)
      (omega (arith, h, ap length e, facts.1, facts.3))
    ∙ ap₂ (λ c t. c ++ (t ++ r.body)) facts.0 e
