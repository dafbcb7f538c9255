-- ===== src/Http/Context/Resume.antt =====
-- HTTP/HttpContext.cpp: a request may arrive in pieces.
use rabbit_server.Prelude.{
  ℕ, zero, suc, ◌+◌, ◌<◌, ◌≡◌, ◌≢◌, ◌⊎◌, inl, inr, refl, ap, ap₂, sym, ◌∙◌, true, false, some, ◌++◌,
  arith, Option-cases, Bytes, find_crlf, find_crlf-length, find_crlf-append, length, drop,
  length-drop, length-append, take-append_le, drop-append_le, ok, fault, assertion,
}
use rabbit_server.Input.{byte_input}
use rabbit_server.Http.Context.Loop.{parse_loop_fuel}
use rabbit_server.Http.Context.Steps.{IsActive, waits, rejects, aborts, ends, goes, step-StepCase}
use rabbit_server.Http.Context.{
  State, expect_request_line, expect_headers, got_all, HttpContext, continues, parse_step,
  parse_loop, parse_request,
}
use rabbit_server.Http.Context.Readable.{map_step, step-map}

module _ (now : ℕ) where
  step-append :
      (st : State) (c : HttpContext) (s t : Bytes) (k : ℕ)
      → find_crlf s ≡ some k
      → parse_step byte_input now st c (s ++ t)
        ≡ map_step (λ r. r ++ t) (parse_step byte_input now st c s)
  step-append st c s t k e =
      let h = find_crlf-length s k e in
      step-map byte_input byte_input now (λ r. r ++ t) st c s k
        (record {
          here = e;
          there = find_crlf-append s t k e;
          line = take-append_le k s t (omega (arith, h));
          rest = drop-append_le (k + 2) s t h;
        })

  -- One round on the longer input.
  goes-append :
      (c next : HttpContext) (s t : Bytes) (k : ℕ)
      → find_crlf s ≡ some k
      → next.state ≡ expect_headers
      → parse_step byte_input now c.state c s ≡ ok (continues next (drop (k + 2) s))
      → parse_request byte_input now c (s ++ t)
        ≡ parse_request byte_input now next (drop (k + 2) s ++ t)
  unfolding parse_request parse_loop
  goes-append c next s t k e st p =
      rw (step-append c.state c s t k e, p, parse_loop)
        (parse_loop_fuel byte_input now (length (s ++ t)) (suc (length (drop (k + 2) s ++ t))) next
          (drop (k + 2) s ++ t) (inr st)
          (omega (
            arith,
            find_crlf-length s k e,
            length-append s t,
            length-append (drop (k + 2) s) t,
            length-drop (k + 2) s,
          ))
          (omega arith))

  loop-append :
      (fuel : ℕ) (c c' : HttpContext) (s s' t : Bytes)
      → IsActive c.state
      → length s < fuel
      → parse_loop byte_input now fuel c s ≡ ok (true, c', s')
      → c'.state ≢ got_all
      → parse_request byte_input now c (s ++ t) ≡ parse_request byte_input now c' (s' ++ t)
  unfolding parse_loop
  loop-append zero c c' s s' t a h e n = elim h [ ]
  loop-append (suc fuel) c c' s s' t a h e n = elim (step-StepCase byte_input now c s a) [
    | waits f p ↦
        let q : ok (true, c, s) ≡ ok (true, c', s') = rw (p, parse_loop) at e in
        ap₂ (λ x y. parse_request byte_input now x (y ++ t)) (cc) (cc)
    | rejects request st p ↦
        let q : ok (false, record c { request = request }, s) ≡ ok (true, c', s') =
          rw (p, parse_loop) at e in
        cc
    | aborts st set p ↦ let q : fault assertion ≡ ok (true, c', s') = rw (p, parse_loop) at e in cc
    | ends k f p ↦
        let q : ok (true, record c { state = got_all }, drop (k + 2) s) ≡ ok (true, c', s') =
          rw (p, parse_loop) at e in
        let done : record c { state = got_all } ≡ c' = cc in
        absurd (n (sym (ap (λ (x : HttpContext). x.state) done)))
    | goes k request f p ↦
        let next : HttpContext = record { state = expect_headers; request = request } in
        let q : parse_loop byte_input now fuel next (drop (k + 2) s) ≡ ok (true, c', s') =
          rw (p, parse_loop) at e in
        goes-append c next s t k f refl p
        ∙ loop-append fuel next c' (drop (k + 2) s) s' t (inr refl)
            (omega (arith, find_crlf-length s k f, length-drop (k + 2) s)) q n
  ]

  -- Where the parser can stop, and what it has then read.
  loop-stops :
      (fuel : ℕ) (c c' : HttpContext) (s s' : Bytes)
      → IsActive c.state
      → parse_loop byte_input now fuel c s ≡ ok (true, c', s')
      → ((c ≡ c') × (s ≡ s')) ⊎ ((c'.state ≡ expect_headers) ⊎ (c'.state ≡ got_all))
  unfolding parse_loop
  loop-stops zero c c' s s' a e = cc
  loop-stops (suc fuel) c c' s s' a e = elim (step-StepCase byte_input now c s a) [
    | waits f p ↦
        let q : ok (true, c, s) ≡ ok (true, c', s') = rw (p, parse_loop) at e in inl (cc, cc)
    | rejects request st p ↦
        let q : ok (false, record c { request = request }, s) ≡ ok (true, c', s') =
          rw (p, parse_loop) at e in
        ground (arith, q)
    | aborts st set p ↦
        let q : fault assertion ≡ ok (true, c', s') = rw (p, parse_loop) at e in ground (arith, q)
    | ends k f p ↦
        let q : ok (true, record c { state = got_all }, drop (k + 2) s) ≡ ok (true, c', s') =
          rw (p, parse_loop) at e in
        let done : record c { state = got_all } ≡ c' = cc in
        inr (inr (sym (ap (λ (x : HttpContext). x.state) done)))
    | goes k request f p ↦
        let next : HttpContext = record { state = expect_headers; request = request } in
        let q : parse_loop byte_input now fuel next (drop (k + 2) s) ≡ ok (true, c', s') =
          rw (p, parse_loop) at e in
        elim (loop-stops fuel next c' (drop (k + 2) s) s' (inr refl) q) [
          | inl (same, _) ↦ inr (inl (sym (ap (λ (x : HttpContext). x.state) same)))
          | inr other ↦ inr other
        ]
  ]

-- Behind the request line, the time does not matter.
header_step-now :
    (now later : ℕ) (c : HttpContext) (s : Bytes)
    → parse_step byte_input later expect_headers c s ≡ parse_step byte_input now expect_headers c s
unfolding parse_step
header_step-now now later c s = elim (Option-cases (find_crlf s)) [
  | inl n ↦ rw (n, parse_step) refl
  | inr (k, e) ↦ rw (e, parse_step) refl
]

loop-now :
    (now later fuel : ℕ) (c : HttpContext) (s : Bytes)
    → c.state ≡ expect_headers
    → parse_loop byte_input later fuel c s ≡ parse_loop byte_input now fuel c s
unfolding parse_loop
loop-now now later zero c s st = refl
loop-now now later (suc fuel) c s st =
    let same : parse_step byte_input later c.state c s ≡ parse_step byte_input now c.state c s =
      ap (λ x. parse_step byte_input later x c s) st
      ∙ header_step-now now later c s
      ∙ ap (λ x. parse_step byte_input now x c s) (sym st) in
    elim (step-StepCase byte_input now c s (inr st)) [
      | waits f p ↦ rw (same, p, parse_loop) refl
      | rejects request bad p ↦ rw (same, p, parse_loop) refl
      | aborts bad set p ↦ rw (same, p, parse_loop) refl
      | ends k f p ↦ rw (same, p, parse_loop) refl
      | goes k request f p ↦
          let next : HttpContext = record { state = expect_headers; request = request } in
          rw (same, p, parse_loop) (loop-now now later fuel next (drop (k + 2) s) refl)
    ]

-- When the line of the request was complete: with the first bytes, or with the later ones.
abbrev pub line_time : State → ℕ → ℕ → ℕ
line_time expect_request_line now later = later
line_time _ now later = now

behind_line :
    (now later : ℕ) (c c' : HttpContext) (s s' t : Bytes)
    → IsActive c.state
    → parse_request byte_input now c s ≡ ok (true, c', s')
    → c'.state ≢ got_all
    → c'.state ≡ expect_headers
    → parse_request byte_input (line_time c'.state now later) c (s ++ t)
      ≡ parse_request byte_input later c' (s' ++ t)
behind_line now later c c' s s' t a e n st =
    ap (λ x. parse_request byte_input (line_time x now later) c (s ++ t)) st
    ∙ loop-append now (suc (length s)) c c' s s' t a (omega arith) (unfold parse_request in e) n
    ∙ unfold parse_request in loop-now later now (suc (length (s' ++ t))) c' (s' ++ t) st

-- A request may arrive in pieces, at two times: if the parser, in one of its two reading states,
-- stops on what has arrived first without an error and without a complete request, then going on
-- later with what it left and the rest of the bytes gives what parsing all bytes at once gives, with
-- the first time if the parser has come to the headers by then and with the later time if it still
-- expects the request line.
pub parse_request-append :
    (now later : ℕ) (c c' : HttpContext) (s s' t : Bytes)
    → IsActive c.state
    → parse_request byte_input now c s ≡ ok (true, c', s')
    → c'.state ≢ got_all
    → parse_request byte_input (line_time c'.state now later) c (s ++ t)
      ≡ parse_request byte_input later c' (s' ++ t)
parse_request-append now later c c' s s' t a e n =
    elim (loop-stops now (suc (length s)) c c' s s' a (unfold parse_request in e)) [
      | inr (inl st) ↦ behind_line now later c c' s s' t a e n st
      | inr (inr done) ↦ absurd (n done)
      | inl (same, left) ↦
          let state : c'.state ≡ c.state = sym (ap (λ (x : HttpContext). x.state) same) in
          elim a [
            | inr headers ↦ behind_line now later c c' s s' t (inr headers) e n (state ∙ headers)
            | inl line ↦
                ap (λ x. parse_request byte_input (line_time x now later) c (s ++ t)) (state ∙ line)
                ∙ ap₂ (λ x y. parse_request byte_input later x (y ++ t)) same left
          ]
    ]
