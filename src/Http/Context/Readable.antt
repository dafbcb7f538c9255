-- ===== src/Http/Context/Readable.antt =====
-- HTTP/HttpContext.cpp: the parser goes by the readable bytes of its input alone.
use rabbit_server.Prelude.{
  ℕ, zero, suc, ◌+◌, ◌≡◌, ◌⊎◌, inl, inr, refl, sym, Bool, none, some, ◌==◌, Bool-cases,
  Option-cases, index_of, find_crlf, length, take, Result, ok, fault, Fault,
}
use rabbit_server.Input.{Input, byte_input}
use rabbit_server.Http.Context.{
  State, expect_request_line, expect_headers, expect_body, got_all, HttpContext, Progress, finished,
  continues, process_request_line, parse_step, parse_loop, parse_request,
}

Result-cases {ℓ} :
    {A : Type ℓ} (m : Result A) → ((a : A) × (m ≡ ok a)) ⊎ ((f : Fault) × (m ≡ fault f))
Result-cases (ok a) = inl (a, refl)
Result-cases (fault f) = inr (f, refl)

module _ {B C : Type 0} where
  abbrev pub map_progress : (B → C) → Progress B → Progress C
  map_progress f (finished good c b) = finished good c (f b)
  map_progress f (continues c b) = continues c (f b)

  abbrev pub map_step : (B → C) → Result (Progress B) → Result (Progress C)
  map_step f (ok p) = ok (map_progress f p)
  map_step f (fault e) = fault e

  abbrev pub map_end : (B → C) → Result (Bool × HttpContext × B) → Result (Bool × HttpContext × C)
  map_end f (ok (good, c, b)) = ok (good, c, f b)
  map_end f (fault e) = fault e

-- A round on one input, and on another that shows the same line and drops it the same way.
module _ {B C : Type 0} (input : Input B) (output : Input C) (now : ℕ) (f : B → C) where
  pub record SameLine (b : B) (k : ℕ) : Type 0 where
    pub here : find_crlf (input.bytes b) ≡ some k
    pub there : find_crlf (output.bytes (f b)) ≡ some k
    pub line : take k (output.bytes (f b)) ≡ take k (input.bytes b)
    pub rest : output.consume (f b) (k + 2) ≡ f (input.consume b (k + 2))

  line_step-map :
      (c : HttpContext) (b : B) (k : ℕ)
      → SameLine b k
      → parse_step output now expect_request_line c (f b)
        ≡ map_step f (parse_step input now expect_request_line c b)
  unfolding parse_step
  line_step-map c b k s =
      elim (Result-cases (process_request_line (take k (input.bytes b)) c.request)) [
        | inr (e, p) ↦ rw (s.here, s.there, s.line, p, parse_step) refl
        | inl ((good, r), p) ↦ elim (Bool-cases good) [
          | inl g ↦ rw (s.here, s.there, s.line, p, g, s.rest, parse_step) refl
          | inr g ↦ rw (s.here, s.there, s.line, p, g, parse_step) refl
        ]
      ]

  header_step-map :
      (c : HttpContext) (b : B) (k : ℕ)
      → SameLine b k
      → parse_step output now expect_headers c (f b)
        ≡ map_step f (parse_step input now expect_headers c b)
  unfolding parse_step
  header_step-map c b k s =
      elim (Bool-cases
        (index_of b':' (take k (input.bytes b)) == length (take k (input.bytes b)))) [
          | inl g ↦ rw (s.here, s.there, s.line, g, s.rest, parse_step) refl
          | inr g ↦ rw (s.here, s.there, s.line, g, s.rest, parse_step) refl
        ]

  pub step-map :
      (st : State) (c : HttpContext) (b : B) (k : ℕ)
      → SameLine b k
      → parse_step output now st c (f b) ≡ map_step f (parse_step input now st c b)
  unfolding parse_step
  step-map expect_request_line c b k s = line_step-map c b k s
  step-map expect_headers c b k s = header_step-map c b k s
  step-map expect_body c b k s = refl
  step-map got_all c b k s = refl

module _ {B : Type 0} (input : Input B) (now : ℕ) where
  step-bytes :
      (st : State) (c : HttpContext) (b : B)
      → parse_step byte_input now st c (input.bytes b)
        ≡ map_step input.bytes (parse_step input now st c b)
  step-bytes st c b = elim (Option-cases (find_crlf (input.bytes b))) [
    | inl n ↦ nothing st n
    | inr (k, e) ↦
        step-map input byte_input now input.bytes st c b k
          (record { here = e; there = e; line = refl; rest = sym (input.bytes-consume b (k + 2)) })
  ]
    where
      nothing :
          (st : State)
          → find_crlf (input.bytes b) ≡ none
          → parse_step byte_input now st c (input.bytes b)
            ≡ map_step input.bytes (parse_step input now st c b)
      nothing expect_request_line n = unfold parse_step in rw (n, parse_step) refl
      nothing expect_headers n = unfold parse_step in rw (n, parse_step) refl
      nothing expect_body n = unfold parse_step in refl
      nothing got_all n = unfold parse_step in refl

  loop-bytes :
      (fuel : ℕ) (c : HttpContext) (b : B)
      → map_end input.bytes (parse_loop input now fuel c b)
        ≡ parse_loop byte_input now fuel c (input.bytes b)
  unfolding parse_loop
  loop-bytes zero c b = refl
  loop-bytes (suc fuel) c b = elim (Result-cases (parse_step input now c.state c b)) [
    | inr (e, p) ↦ rw (step-bytes c.state c b, p, parse_loop) refl
    | inl (finished good c' b', p) ↦ rw (step-bytes c.state c b, p, parse_loop) refl
    | inl (continues c' b', p) ↦ rw (step-bytes c.state c b, p, parse_loop) (loop-bytes fuel c' b')
  ]

  -- The parser goes by the readable bytes alone: on any input buffer, and from any context, parsing
  -- and then looking at what is left gives the same as parsing the bytes themselves.
  pub parse_request-bytes :
      (c : HttpContext) (b : B)
      → map_end input.bytes (parse_request input now c b)
        ≡ parse_request byte_input now c (input.bytes b)
  unfolding parse_request
  parse_request-bytes c b = loop-bytes (suc (length (input.bytes b))) c b
