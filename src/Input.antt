-- ===== src/Input.antt =====
-- What HTTP/HttpContext.cpp needs of net/Buffer.cpp: the readable bytes, and a way to drop some.
use rabbit_server.Prelude.{ℕ, ◌≡◌, refl, Bytes, drop}

pub record Input (B : Type 0) : Type 0 where
  pub bytes : B → Bytes
  pub consume : B → ℕ → B
  pub bytes-consume : (b : B) (n : ℕ) → bytes (consume b n) ≡ drop n (bytes b)

-- The bytes themselves.
abbrev pub byte_input : Input Bytes
byte_input = record { bytes = λ s. s; consume = λ s n. drop n s; bytes-consume = λ s n. refl }
