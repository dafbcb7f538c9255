-- ===== src/Prelude/Search.antt =====
-- What the searches of `Strings` find.
use Prim.Native.Nat.{ℕ, ◌+◌, ◌≤◌}
use mathlib.Core.List.{[], ◌∷◌, ◌++◌}
use mathlib.Core.Logic.{inl, inr, ◌≢◌}
use mathlib.Core.Option.{some}
use mathlib.Core.Path.{◌≡◌, refl}
use native.Mathlib.Omega.{arith}
use rabbit_server.Prelude.Lists.{length}
use rabbit_server.Prelude.Tests.{Option-cases}
use rabbit_server.Prelude.Strings.{Bytes, index_of, find_crlf}

pub index_of-le : (c : ℕ) (xs : Bytes) → index_of c xs ≤ length xs
unfolding index_of
index_of-le c [] = omega arith
index_of-le c (x ∷ xs) = ground (arith, index_of-le c xs)

-- The byte does not occur.
abbrev pub Lacks : ℕ → Bytes → Type 0
Lacks c [] = Unit {0}
Lacks c (x ∷ xs) = (x ≢ c) × Lacks c xs

pub index_of-append : (c : ℕ) (xs ys : Bytes) → Lacks c xs → index_of c (xs ++ (c ∷ ys)) ≡ length xs
unfolding index_of
index_of-append c [] ys h = ground arith
index_of-append c (x ∷ xs) ys h = ground (arith, index_of-append c xs ys h.1)

pub index_of-Lacks : (c : ℕ) (xs : Bytes) → Lacks c xs → index_of c xs ≡ length xs
unfolding index_of
index_of-Lacks c [] h = refl
index_of-Lacks c (x ∷ xs) h = ground (arith, index_of-Lacks c xs h.1)

pub find_crlf-length : (s : Bytes) (k : ℕ) → find_crlf s ≡ some k → k + 2 ≤ length s
unfolding find_crlf
find_crlf-length [] k e = ground arith
find_crlf-length (x ∷ []) k e = ground arith
find_crlf-length (x ∷ y ∷ ys) k e = elim (Option-cases (find_crlf (y ∷ ys))) [
  | inl n ↦ ground (arith, n)
  | inr (j, f) ↦ ground (arith, f, find_crlf-length (y ∷ ys) j f)
]

-- The first line end of a text is that of any longer text.
pub find_crlf-append : (s t : Bytes) (k : ℕ) → find_crlf s ≡ some k → find_crlf (s ++ t) ≡ some k
unfolding find_crlf
find_crlf-append [] t k e = ground arith
find_crlf-append (x ∷ []) t k e = ground arith
find_crlf-append (x ∷ y ∷ ys) t k e = elim (Option-cases (find_crlf (y ∷ ys))) [
  | inl n ↦ ground (arith, n)
  | inr (j, f) ↦ ground (arith, f, find_crlf-append (y ∷ ys) t j f)
]

-- A line has no carriage return of its own.
pub find_crlf_line :
    (line rest : Bytes)
    → Lacks b'\r' line
    → find_crlf (line ++ (b'\r' ∷ b'\n' ∷ rest)) ≡ some (length line)
unfolding find_crlf
find_crlf_line [] rest h = refl
find_crlf_line (x ∷ []) rest h = ground (arith, find_crlf_line [] rest tt)
find_crlf_line (x ∷ y ∷ line) rest h = ground (arith, find_crlf_line (y ∷ line) rest h.1)

pub Lacks-append : (c : ℕ) (xs ys : Bytes) → Lacks c xs → Lacks c ys → Lacks c (xs ++ ys)
Lacks-append c [] ys h k = k
Lacks-append c (x ∷ xs) ys h k = (h.0, Lacks-append c xs ys h.1 k)
