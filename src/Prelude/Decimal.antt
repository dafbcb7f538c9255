-- ===== src/Prelude/Decimal.antt =====
-- `%d` of printf for a number that is not negative, and `atoi` to read it back.
use Prim.Native.Nat.{ℕ, zero, suc, ◌+◌, ◌-◌, ◌*◌, ◌/◌, ◌%◌, ◌^◌, ◌≤◌, ◌<◌}
use mathlib.Core.List.{[], ◌∷◌}
use mathlib.Core.Logic.{inl, inr}
use mathlib.Core.Path.{◌≡◌, ap, ◌∙◌}
use native.Mathlib.Omega.{arith}
use native.Mathlib.Nat.{pow-suc}
use rabbit_server.Prelude.Lists.{length}
use rabbit_server.Prelude.Tests.{ltb, if◌then◌else◌, Bool-cases}
use rabbit_server.Prelude.Strings.{Bytes}

-- The digits of `n` in front of `acc`. A number below 2^f has at most f digits.
pub digits_onto : ℕ → ℕ → Bytes → Bytes
digits_onto zero n acc = acc
digits_onto (suc f) n acc =
    let rest = digits_onto f (n / 10) ((b'0' + n % 10) ∷ acc) in
    if ltb n 10 then (b'0' + n) ∷ acc else rest

unfoldable pub decimal : ℕ → Bytes
unfolding digits_onto
decimal n = digits_onto (suc n) n []

-- Horner's rule, as `atoi` uses it.
unfoldable pub read_digits : ℕ → Bytes → ℕ
read_digits v [] = v
read_digits v (c ∷ cs) = read_digits (v * 10 + (c - b'0')) cs

scale : Bytes → ℕ
scale [] = 1
scale (c ∷ cs) = 10 * scale cs

read_digits_shift : (v : ℕ) (s : Bytes) → read_digits v s ≡ v * scale s + read_digits 0 s
unfolding read_digits scale
read_digits_shift v [] = omega arith
read_digits_shift v (c ∷ cs) =
    omega (
      arith,
      read_digits_shift (v * 10 + (c - b'0')) cs,
      read_digits_shift (0 * 10 + (c - b'0')) cs,
    )

read_digits-onto :
    (f n : ℕ) (acc : Bytes) → n < f → read_digits 0 (digits_onto f n acc) ≡ read_digits n acc
unfolding digits_onto read_digits
read_digits-onto zero n acc h = elim h [ ]
read_digits-onto (suc f) n acc h = elim (Bool-cases (ltb n 10)) [
  | inl small ↦ rw small (ap (λ v. read_digits v acc) (omega arith))
  | inr large ↦ rw large (
      read_digits-onto f (n / 10) ((b'0' + n % 10) ∷ acc) (ground arith)
      ∙ ap (λ v. read_digits v acc) (omega arith))
]

pub read_digits-decimal : (n : ℕ) → read_digits 0 (decimal n) ≡ n
unfolding decimal read_digits
read_digits-decimal n = read_digits-onto (suc n) n [] (omega arith)

length-digits_onto :
    (k f n : ℕ) (acc : Bytes)
    → n < f
    → n < 10 ^ (suc k)
    → length (digits_onto f n acc) ≤ suc k + length acc
unfolding digits_onto
length-digits_onto k zero n acc h p = elim h [ ]
length-digits_onto zero (suc f) n acc h p = ground arith
length-digits_onto (suc k) (suc f) n acc h p = elim (Bool-cases (ltb n 10)) [
  | inl small ↦ rw small (omega arith)
  | inr large ↦
      let bound : n / 10 < 10 ^ suc k = omega (arith, pow-suc 10 (suc k)) in
      rw large (
        omega (arith, length-digits_onto k f (n / 10) ((b'0' + n % 10) ∷ acc) (ground arith) bound))
]

pub length-decimal : (k n : ℕ) → n < 10 ^ (suc k) → length (decimal n) ≤ suc k
unfolding decimal
length-decimal k n p = omega (arith, length-digits_onto k (suc n) n [] (omega arith) p)
