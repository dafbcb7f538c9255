-- ===== src/Net/Timestamp.antt =====
-- net/Timestamp.h and net/Timestamp.cpp. A timestamp is its number of microseconds since the epoch,
-- which the `double` that it is made of holds exactly below 2^53.
use rabbit_server.Prelude.{
  ℕ, suc, ◌+◌, ◌-◌, ◌*◌, ◌/◌, ◌%◌, ◌^◌, ◌<◌, ◌≡◌, refl, Bool, ◌∷◌, ◌++◌, zero, arith, ltb, Bytes,
  length, take, replicate, decimal, length-decimal, read_digits, read_digits-decimal, length-append,
  length-replicate, take-length,
}

abbrev pub microseconds_per_second : ℕ
microseconds_per_second = 1_000_000

unfoldable pub valid : ℕ → Bool
valid t = ltb 0 t

-- `operator<` and `operator==` compare the numbers.
abbrev pub before : ℕ → ℕ → Bool
before l r = ltb l r

-- `now`, from what `gettimeofday` reports.
unfoldable pub now_of : ℕ → ℕ → ℕ
now_of seconds useconds = seconds * microseconds_per_second + useconds

-- `nowAfter`, for a whole number of seconds.
unfoldable pub now_after : ℕ → ℕ → ℕ
now_after now seconds = now + microseconds_per_second * seconds

-- "%06d".
abbrev pub padded : ℕ → Bytes
padded n = replicate (6 - length (decimal n)) b'0' ++ decimal n

-- `toString`: `snprintf` keeps thirty characters at most.
unfoldable pub to_string : ℕ → Bytes
to_string t =
    take 30 (decimal (t / microseconds_per_second) ++ (b'.' ∷ padded (t % microseconds_per_second)))

read_digits_zeros : (k : ℕ) (s : Bytes) → read_digits 0 (replicate k b'0' ++ s) ≡ read_digits 0 s
unfolding read_digits
read_digits_zeros zero s = refl
read_digits_zeros (suc k) s = read_digits_zeros k s

length-padded : (n : ℕ) → n < 10 ^ suc 5 → length (padded n) ≡ 6
length-padded n h = omega (
  arith,
  length-decimal 5 n h,
  length-append (replicate (6 - length (decimal n)) b'0') (decimal n),
  length-replicate {A = ℕ} (6 - length (decimal n)) b'0',
)

-- What a timestamp is printed as: the seconds, a point, and six digits, from which it is read back.
pub record Printed (t : ℕ) : Type 0 where
  pub seconds : Bytes
  pub fraction : Bytes
  pub printed : to_string t ≡ seconds ++ (b'.' ∷ fraction)
  pub six_digits : length fraction ≡ 6
  pub read_back : read_digits 0 seconds * microseconds_per_second + read_digits 0 fraction ≡ t

-- A timestamp below 2^63 is printed in full, as its seconds, a point and six digits, and reading the
-- digits gives it back.
pub to_string-Printed : (t : ℕ) → t < 2 ^ 63 → Printed t
unfolding to_string
to_string-Printed t h =
    let s = t / microseconds_per_second in
    let u = t % microseconds_per_second in
    let six = length-padded u (omega arith) in
    record {
      seconds = decimal s;
      fraction = padded u;
      printed = take-length (decimal s ++ (b'.' ∷ padded u)) 30 (
          omega (
            arith,
            six,
            length-append (decimal s) (b'.' ∷ padded u),
            length-decimal 13 s (omega arith),
          ));
      six_digits = six;
      read_back = omega (
        arith,
        read_digits-decimal s,
        read_digits_zeros (6 - length (decimal u)) (decimal u),
        read_digits-decimal u,
      );
    }
