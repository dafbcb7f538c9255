-- ===== src/Base/Thread/Names.antt =====
-- base/Thread.cpp: the names that threads get.
use rabbit_server.Prelude.{
  ℕ, ◌+◌, ◌<◌, ◌≤◌, ◌^◌, ◌≡◌, ap, sym, ◌∙◌, [], ◌++◌, arith, codes, length, drop, decimal,
  length-decimal, read_digits, read_digits-decimal, take-length,
}
use rabbit_server.Base.Thread.{set_default_name}

-- Below 2^31 threads the buffer holds the name.
default_name :
    (created : ℕ)
    → created + 1 < 2 ^ 31
    → (set_default_name created []).1 ≡ codes "Thread" ++ decimal (created + 1)
unfolding set_default_name
default_name created h =
    take-length (codes "Thread" ++ decimal (created + 1)) 31
      (omega (arith, length-decimal 9 (created + 1) (omega arith)))

-- Below 2^31 threads, two threads that were made without a name at different counts have different
-- names, of at most sixteen characters.
pub set_default_name-distinct :
    (m n : ℕ)
    → m + 1 < 2 ^ 31
    → n + 1 < 2 ^ 31
    → (set_default_name m []).1 ≡ (set_default_name n []).1
    → (m ≡ n) × (length (set_default_name m []).1 ≤ 16)
set_default_name-distinct m n hm hn e =
    let digits : decimal (m + 1) ≡ decimal (n + 1) =
      ap (drop 6) (sym (default_name m hm) ∙ e ∙ default_name n hn) in
    (
      omega (
        arith,
        read_digits-decimal (m + 1),
        read_digits-decimal (n + 1),
        ap (read_digits 0) digits,
      ),
      omega (arith, ap length (default_name m hm), length-decimal 9 (m + 1) (omega arith)),
    )
