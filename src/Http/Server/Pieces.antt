-- ===== src/Http/Server/Pieces.antt =====
-- HTTP/HttpServer.cpp and net/Buffer.cpp: a request that arrives in pieces.
use rabbit_server.Prelude.{
  ℕ, ◌+◌, ◌-◌, ◌≤◌, ◌≡◌, inl, inr, refl, ap, ap₂, sym, subst, ◌∙◌, false, List, [], ◌∷◌, ◌++◌,
  arith, Bytes, codes, equal, equal_iff, length, take, drop, take-append-drop, take-drop, drop-drop,
  Result, ok, ◌>>=◌, Bool-cases, ltb, append-nil,
}
use rabbit_server.Vector.{Allocator}
use rabbit_server.Buffer.Contents.{IsValid, length-contents}
use rabbit_server.Buffer.ReadFd.{contents-read_fd, writable-read_fd}
use rabbit_server.Buffer.{Buffer, contents, readable_bytes, writable_bytes, received, read_fd}
use rabbit_server.Http.Request.{Version}
use rabbit_server.Http.Context.Message.{Message, IsWellFormed, print, start, complete_with}
use rabbit_server.Http.Context.{HttpContext}
use rabbit_server.Http.Server.{HttpCallback, Action, ends_blank, on_request, on_message}
use rabbit_server.Http.Server.EndsBlank.{EndsBlank}
use rabbit_server.Http.Server.OnMessage.{on_message-Answered}

-- The bytes of each `read` and the call of `onMessage` behind it.
pub deliver :
    Allocator
    → HttpCallback
    → ℕ
    → HttpContext
    → Buffer
    → List Bytes
    → Result (HttpContext × Buffer × List Action)
deliver a callback now c b [] = ok (c, b, [])
deliver a callback now c b (s ∷ ss) =
    on_message a callback now c (read_fd a b (received s)) >>= λ (c', b', actions).
    deliver a callback now c' b' ss >>= λ (c'', b'', more). ok (c'', b'', actions ++ more)

-- The pieces make up the whole behind what is there. The first leaves four bytes or more, and none but
-- the last ends with an empty line.
pub data Arrives (whole : Bytes) : Bytes → List Bytes → Type 0 where
  last : {here s : Bytes} → here ++ s ≡ whole → Arrives whole here (s ∷ [])
  more :
      {here s : Bytes} {ss : List Bytes}
      → 4 ≤ length (here ++ s)
      → (EndsBlank (here ++ s) → ⊥)
      → Arrives whole (here ++ s) ss
      → Arrives whole here (s ∷ ss)

abbrev pub total : List Bytes → ℕ
total [] = 0
total (s ∷ ss) = length s + total ss

-- Without an empty line at the end the server waits.
ends_blank-contents_open :
    (b : Buffer)
    → IsValid b
    → 4 ≤ length (contents b)
    → (EndsBlank (contents b) → ⊥)
    → ends_blank b ≡ ok false
unfolding ends_blank
ends_blank-contents_open b v h n =
    let s = b.buffer.storage in
    let w = b.write_index in
    let k = length (contents b) - 4 in
    let long = length-contents b v in
    let behind : drop k (contents b) ≡ take 4 (drop (w - 4) s) =
      drop-drop b.read_index k (take w s)
      ∙ ap₂ (λ m n. drop m (take n s)) (omega (arith, long)) (omega (arith, long))
      ∙ sym (take-drop (w - 4) 4 s) in
    elim (Bool-cases (equal (take 4 (drop (w - 4) s)) (codes "\r\n\r\n"))) [
      | inl blank ↦ absurd (
          n (
            take k (contents b),
            sym (take-append-drop k (contents b))
                ∙ ap (◌++◌ (take k (contents b)))
                    (behind ∙ (equal_iff (take 4 (drop (w - 4) s)) (codes "\r\n\r\n")).0 blank),
          ))
      | inr open' ↦ rw (enough long, open')
    ]
  where
    enough : length (contents b) ≡ readable_bytes b → ltb b.write_index 4 ≡ false
    enough e = ground arith

module _ (a : Allocator) (callback : HttpCallback) (now : ℕ) where
  waits_for_more :
      (c : HttpContext) (b : Buffer)
      → ends_blank b ≡ ok false
      → on_message a callback now c b ≡ ok (c, b, [])
  unfolding on_message
  waits_for_more c b e = rw e refl

  -- What the whole request leads to.
  pub record Delivered (v : Version) (m : Message) (b : Buffer) (ss : List Bytes) : Type 0 where
    pub buffer : Buffer
    pub result :
        deliver a callback now (start v) b ss
        ≡ ok (start m.version, buffer, on_request a callback (complete_with now m).request)
    pub left : contents buffer ≡ []
    pub valid : IsValid buffer

  -- A well-formed request arrives in a valid buffer that has room for it, behind the part of it that
  -- is readable already, in one or more reads; behind each read but the last, at least four bytes
  -- are readable and they do not end with an empty line. Then `onMessage` behind each `readFd` waits
  -- until the last read, makes there once the calls that `onRequest` makes for the request as its
  -- client meant it, and leaves an empty valid buffer and a context that is reset but for the
  -- version.
  pub deliver-Delivered :
      (v : Version) (m : Message) (b : Buffer) (ss : List Bytes)
      → IsValid b
      → IsWellFormed m
      → total ss ≤ writable_bytes b
      → Arrives (print m []) (contents b) ss
      → Delivered v m b ss
  unfolding deliver
  deliver-Delivered v m b [] ok_b w room x = elim x [ ]
  deliver-Delivered v m b (s ∷ []) ok_b w room (last e) =
      let (c, valid) = contents-read_fd a b (received s) ok_b (inl (omega arith)) in
      let r =
        on_message-Answered a callback now v m (read_fd a b (received s)) [] valid w (inl refl)
          (c ∙ e) in
      record {
        buffer = r.buffer;
        result = rw r.result (
            ap (λ x. ok (start m.version, r.buffer, x))
              (append-nil (on_request a callback (complete_with now m).request)));
        left = r.left;
        valid = r.valid;
      }
  deliver-Delivered v m b (s ∷ ss) ok_b w room (more four no_end rest) =
      let b' = read_fd a b (received s) in
      let (c, valid) = contents-read_fd a b (received s) ok_b (inl (omega arith)) in
      let here = sym c in
      let quiet = waits_for_more (start v) b' (
        ends_blank-contents_open b' valid (omega (arith, four, ap length c))
          (λ x. no_end (subst EndsBlank c x))) in
      let r =
        deliver-Delivered v m b' ss valid w
          (omega (arith, room, writable-read_fd a b s ok_b (omega arith)))
          (subst (λ x. Arrives (print m []) x ss) here rest) in
      record {
        buffer = r.buffer;
        result = rw (quiet, r.result) refl;
        left = r.left;
        valid = r.valid;
      }
