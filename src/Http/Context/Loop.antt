-- ===== src/Http/Context/Loop.antt =====
-- HTTP/HttpContext.cpp: how the loop of `parseRequest` ends.
use rabbit_server.Prelude.{
  ℕ, zero, suc, ◌+◌, ◌-◌, ◌<◌, ◌≡◌, ◌⊎◌, inl, inr, refl, ap, subst, ◌∙◌, Bool, true, false, none,
  some, arith, index_of, find_crlf, find_crlf-length, length, take, length-drop, Result, ok, fault,
  out_of_fuel, assertion,
}
use rabbit_server.Input.{Input}
use rabbit_server.Http.Request.{HttpRequest, set_method, is_valid}
use rabbit_server.Http.Context.{
  State, expect_request_line, expect_headers, expect_body, got_all, HttpContext, finished,
  continues, process_request_line, parse_step, parse_loop, parse_request,
}
use rabbit_server.Http.Context.Steps.{
  IsActive, IsReady, waits, rejects, aborts, ends, goes, step-StepCase,
}

module _ {B : Type 0} (input : Input B) (now : ℕ) where
  -- How the call ended: the request is complete; its next line has not arrived; or the request line
  -- was refused, and stays in the buffer.
  pub data Ending (good : Bool) (c : HttpContext) (b : B) : Type 0 where
    complete : good ≡ true → c.state ≡ got_all → Ending good c b
    incomplete : good ≡ true → IsReady c → find_crlf (input.bytes b) ≡ none → Ending good c b
    refused : good ≡ false → c.state ≡ expect_request_line → Ending good c b

  pub record Returns (r : Result (Bool × HttpContext × B)) : Type 0 where
    pub good : Bool
    pub context : HttpContext
    pub buffer : B
    pub result : r ≡ ok (good, context, buffer)
    pub ending : Ending good context buffer

  consumed : (b : B) (n : ℕ) → length (input.bytes (input.consume b n)) ≡ length (input.bytes b) - n
  consumed b n = ap length (input.bytes-consume b n) ∙ length-drop n (input.bytes b)

  pub IsReady-IsActive : (c : HttpContext) → IsReady c → IsActive c.state
  IsReady-IsActive c (inl h) = inl h.0
  IsReady-IsActive c (inr h) = inr h

  -- The fuel that is left stays above the bytes that are left.
  fuel_left :
      (b : B) (k fuel : ℕ)
      → find_crlf (input.bytes b) ≡ some k
      → length (input.bytes b) < suc fuel
      → length (input.bytes (input.consume b (k + 2))) < fuel
  fuel_left b k fuel e h = omega (arith, consumed b (k + 2), find_crlf-length (input.bytes b) k e)

  -- Any two amounts of fuel above the bytes give the same.
  pub parse_loop_fuel :
      (fuel fuel' : ℕ) (c : HttpContext) (b : B)
      → IsActive c.state
      → length (input.bytes b) < fuel
      → length (input.bytes b) < fuel'
      → parse_loop input now fuel c b ≡ parse_loop input now fuel' c b
  unfolding parse_loop
  parse_loop_fuel zero fuel' c b a h h' = elim h [ ]
  parse_loop_fuel (suc fuel) zero c b a h h' = elim h' [ ]
  parse_loop_fuel (suc fuel) (suc fuel') c b a h h' = elim (step-StepCase input now c b a) [
    | waits n e ↦ rw (e, parse_loop)
    | rejects request st e ↦ rw (e, parse_loop)
    | aborts st set e ↦ rw (e, parse_loop)
    | ends k f e ↦ rw (e, parse_loop)
    | goes k request f e ↦
        rw (e, parse_loop)
          (parse_loop_fuel fuel fuel' (record { state = expect_headers; request = request })
            (input.consume b (k + 2)) (inr refl) (fuel_left b k fuel f h)
            (fuel_left b k fuel' f h'))
  ]

  idle_step :
      (st : State) (c : HttpContext) (b : B)
      → (st ≡ got_all) ⊎ (st ≡ expect_body)
      → parse_step input now st c b ≡ ok (continues c b)
  unfolding parse_step
  idle_step expect_request_line c b h = ground arith
  idle_step expect_headers c b h = ground arith
  idle_step _ c b h = refl

  -- In the states `kExpectBody` and `kGotAll` the loop of `parseRequest` never ends: it uses up any
  -- amount of fuel, on any input.
  pub parse_loop_stuck :
      (fuel : ℕ) (c : HttpContext) (b : B)
      → (c.state ≡ got_all) ⊎ (c.state ≡ expect_body)
      → parse_loop input now fuel c b ≡ fault out_of_fuel
  unfolding parse_loop
  parse_loop_stuck zero c b h = refl
  parse_loop_stuck (suc fuel) c b h =
      rw (idle_step c.state c b h, parse_loop) (parse_loop_stuck fuel c b h)

  second_line_step :
      (st : State) (c : HttpContext) (b : B) (crlf : ℕ)
      → st ≡ expect_request_line
      → is_valid c.request.method ≡ true
      → find_crlf (input.bytes b) ≡ some crlf
      → index_of b' ' (take crlf (input.bytes b)) < length (take crlf (input.bytes b))
      → parse_step input now st c b ≡ fault assertion
  unfolding parse_step process_request_line set_method
  second_line_step expect_request_line c b k st set e h = rw (e, parse_step) (ground arith)
  second_line_step _ c b k st set e h = ground arith

  -- A second request line on a context that has a method already ends the process.
  pub parse_request_aborts :
      (c : HttpContext) (b : B) (crlf : ℕ)
      → c.state ≡ expect_request_line
      → is_valid c.request.method ≡ true
      → find_crlf (input.bytes b) ≡ some crlf
      → index_of b' ' (take crlf (input.bytes b)) < length (take crlf (input.bytes b))
      → parse_request input now c b ≡ fault assertion
  unfolding parse_request parse_loop
  parse_request_aborts c b k st set e h = rw (second_line_step c.state c b k st set e h, parse_loop)

  -- A request line that is refused stays where it is.
  pub parse_request_rejects :
      (c : HttpContext) (b : B) (crlf : ℕ) (request : HttpRequest)
      → c.state ≡ expect_request_line
      → find_crlf (input.bytes b) ≡ some crlf
      → process_request_line (take crlf (input.bytes b)) c.request ≡ ok (false, request)
      → parse_request input now c b ≡ ok (false, record c { request = request }, b)
  unfolding parse_request parse_loop
  parse_request_rejects c b k request st e p =
      rw (rejects_step c.state c b k request st e p, parse_loop)
    where
      rejects_step :
          (st : State) (c : HttpContext) (b : B) (k : ℕ) (request : HttpRequest)
          → st ≡ expect_request_line
          → find_crlf (input.bytes b) ≡ some k
          → process_request_line (take k (input.bytes b)) c.request ≡ ok (false, request)
          → parse_step input now st c b ≡ ok (finished false (record c { request = request }) b)
      rejects_step expect_request_line c b k request st e p =
          unfold parse_step in rw (e, p, parse_step)
      rejects_step expect_headers c b k request st e p = ground arith
      rejects_step expect_body c b k request st e p = ground arith
      rejects_step got_all c b k request st e p = ground arith

  -- The buffer that is left comes from the first one by dropping bytes.
  pub parse_loop_keeps {ℓ} :
      (P : B → Type ℓ)
      → ((b : B) (n : ℕ) → P b → P (input.consume b n))
      → (fuel : ℕ) (c : HttpContext) (b : B) {good : Bool} {c' : HttpContext} {b' : B}
      → IsActive c.state
      → P b
      → parse_loop input now fuel c b ≡ ok (good, c', b')
      → P b'
  unfolding parse_loop
  parse_loop_keeps P keep zero c b a p e = cc
  parse_loop_keeps P keep (suc fuel) c b {good} {c'} {b'} a p e =
      elim (step-StepCase input now c b a) [
        | waits n s ↦
            let q : ok (true, c, b) ≡ ok (good, c', b') = rw (s, parse_loop) at e in
            let same : b ≡ b' = cc in subst P same p
        | rejects request st s ↦
            let q : ok (false, record c { request = request }, b) ≡ ok (good, c', b') =
              rw (s, parse_loop) at e in
            let same : b ≡ b' = cc in subst P same p
        | aborts st set s ↦
            let q : fault assertion ≡ ok (good, c', b') = rw (s, parse_loop) at e in cc
        | ends k f s ↦
            let q : ok (true, record c { state = got_all }, input.consume b (k + 2))
                ≡ ok (good, c', b') =
              rw (s, parse_loop) at e in
            let same : input.consume b (k + 2) ≡ b' = cc in subst P same (keep b (k + 2) p)
        | goes k request f s ↦
            parse_loop_keeps P keep fuel (record { state = expect_headers; request = request })
              (input.consume b (k + 2)) (inr refl) (keep b (k + 2) p) (rw (s, parse_loop) at e)
      ]
