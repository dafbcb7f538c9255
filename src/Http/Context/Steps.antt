-- ===== src/Http/Context/Steps.antt =====
-- HTTP/HttpContext.cpp: what one round of the loop of `parseRequest` does.
use rabbit_server.Prelude.{
  ℕ, ◌+◌, ◌≡◌, ◌⊎◌, inl, inr, refl, sym, subst, Bool, true, false, none, some, arith, ◌==◌,
  Bool-cases, Option-cases, Bytes, index_of, find_crlf, length, take, drop, Result, ok, fault,
  assertion,
}
use rabbit_server.Input.{Input}
use rabbit_server.Http.Request.{HttpRequest, add_header, set_method, is_valid}
use rabbit_server.Http.Context.{
  State, expect_request_line, expect_headers, got_all, HttpContext, Progress, finished, continues,
  process_request_line, parse_step,
}

-- The states in which the parser reads lines.
abbrev pub IsActive : State → Type 0
IsActive st = (st ≡ expect_request_line) ⊎ (st ≡ expect_headers)

-- A request line is parsed only for a request that has no method yet.
abbrev pub IsReady : HttpContext → Type 0
IsReady c =
    ((c.state ≡ expect_request_line) × (is_valid c.request.method ≡ false))
    ⊎ (c.state ≡ expect_headers)

pub process_request_line_total :
    (line : Bytes) (r : HttpRequest)
    → is_valid r.method ≡ false
    → (good : Bool) × (r' : HttpRequest) × (process_request_line line r ≡ ok (good, r'))
unfolding process_request_line set_method
process_request_line_total line r h = elim (Bool-cases (index_of b' ' line == length line)) [
  | inl bare ↦ (false, r, rw bare)
  | inr spaced ↦ rw (spaced, h) (_, _, refl)
]

process_request_line_aborts :
    (line : Bytes) (r : HttpRequest)
    → is_valid r.method ≡ true
    → (process_request_line line r ≡ ok (false, r))
      ⊎ (process_request_line line r ≡ fault assertion)
unfolding process_request_line set_method
process_request_line_aborts line r h = ground arith

module _ {B : Type 0} (input : Input B) (now : ℕ) where
  -- The ways in which a round can go.
  pub data StepCase (c : HttpContext) (b : B) (r : Result (Progress B)) : Type 0 where
    waits : find_crlf (input.bytes b) ≡ none → r ≡ ok (finished true c b) → StepCase c b r
    rejects :
        (request : HttpRequest)
        → c.state ≡ expect_request_line
        → r ≡ ok (finished false (record c { request = request }) b)
        → StepCase c b r
    aborts :
        c.state ≡ expect_request_line
        → is_valid c.request.method ≡ true
        → r ≡ fault assertion
        → StepCase c b r
    ends :
        (crlf : ℕ)
        → find_crlf (input.bytes b) ≡ some crlf
        → r ≡ ok (finished true (record c { state = got_all }) (input.consume b (crlf + 2)))
        → StepCase c b r
    goes :
        (crlf : ℕ) (request : HttpRequest)
        → find_crlf (input.bytes b) ≡ some crlf
        → r
          ≡ ok (
              continues
                (record { state = expect_headers; request = request })
                (input.consume b (crlf + 2)))
        → StepCase c b r

  line-StepCase :
      (c : HttpContext) (b : B)
      → c.state ≡ expect_request_line
      → StepCase c b (parse_step input now expect_request_line c b)
  unfolding parse_step
  line-StepCase c b st = elim (Option-cases (find_crlf (input.bytes b))) [
    | inl n ↦ waits n (rw (n, parse_step))
    | inr (k, e) ↦ elim (Bool-cases (is_valid c.request.method)) [
      | inl set ↦ elim (process_request_line_aborts (take k (input.bytes b)) c.request set) [
        | inl bare ↦ rejects c.request st (rw (e, bare, parse_step))
        | inr fails ↦ aborts st set (rw (e, fails, parse_step))
      ]
      | inr unset ↦
          let (good, r, p) = process_request_line_total (take k (input.bytes b)) c.request unset in
          elim (Bool-cases good) [
            | inl yes' ↦ goes k (record r { receive_time = now }) e (rw (e, p, yes', parse_step))
            | inr no' ↦ rejects r st (rw (e, p, no', parse_step))
          ]
    ]
  ]

  headers-StepCase :
      (c : HttpContext) (b : B)
      → c.state ≡ expect_headers
      → StepCase c b (parse_step input now expect_headers c b)
  unfolding parse_step
  headers-StepCase c b st = elim (Option-cases (find_crlf (input.bytes b))) [
    | inl n ↦ waits n (rw (n, parse_step))
    | inr (k, e) ↦
        let line = take k (input.bytes b) in
        elim (Bool-cases (index_of b':' line == length line)) [
          | inl bare ↦ ends k e (rw (e, bare, parse_step))
          | inr field ↦
              let colon = index_of b':' line in
              let request = add_header (take colon line) (drop (colon + 1) line) c.request in
              goes k request e (rw (e, field, parse_step) (ground arith))
        ]
  ]

  pub step-StepCase :
      (c : HttpContext) (b : B) → IsActive c.state → StepCase c b (parse_step input now c.state c b)
  step-StepCase c b (inl e) =
      subst (λ st. StepCase c b (parse_step input now st c b)) (sym e) (line-StepCase c b e)
  step-StepCase c b (inr e) =
      subst (λ st. StepCase c b (parse_step input now st c b)) (sym e) (headers-StepCase c b e)
