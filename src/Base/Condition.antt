-- ===== src/Base/Condition.antt =====
-- base/Condition.cpp: a wait with a timeout. The double is taken as its number of nanoseconds, which
-- is not negative; `time_t`, `long` and `int64_t` have 64 bits.
use rabbit_server.Prelude.{ℕ, ◌+◌, ◌*◌, ◌/◌, ◌%◌, ◌^◌, ◌<◌, ◌≡◌, Bool, ◌==◌, arith}

abbrev pub nanoseconds_per_second : ℕ
nanoseconds_per_second = 1_000_000_000

pub record Timespec : Type 0 where
  pub tv_sec : ℕ
  pub tv_nsec : ℕ

-- Addition of 64 bits.
abbrev pub add64 : ℕ → ℕ → ℕ
add64 m n = (m + n) % 2 ^ 64

-- `abstime`, from what `clock_gettime` reports.
unfoldable pub deadline : Timespec → ℕ → Timespec
deadline now nanoseconds = record {
  tv_sec = add64 now.tv_sec (add64 now.tv_nsec nanoseconds / nanoseconds_per_second);
  tv_nsec = add64 now.tv_nsec nanoseconds % nanoseconds_per_second;
}

abbrev pub etimedout : ℕ
etimedout = 110

-- `waitForSeconds`, with `pthread_cond_timedwait` as what it reports for a deadline.
unfoldable pub wait_for_seconds : (Timespec → ℕ) → Timespec → ℕ → Bool
wait_for_seconds timedwait now nanoseconds = etimedout == timedwait (deadline now nanoseconds)

-- A time as its nanoseconds.
abbrev pub since_epoch : Timespec → ℕ
since_epoch t = t.tv_sec * nanoseconds_per_second + t.tv_nsec

-- The deadline of a timed wait lies exactly the given nanoseconds behind the time that the clock
-- gave, its nanoseconds are below a second and its seconds below 2^63, so that nothing wraps around
-- in 64 bits: for a clock with nanoseconds below a second and seconds below 2^62, and for less than
-- 2^62 nanoseconds.
pub deadline-since_epoch :
    (now : Timespec) (nanoseconds : ℕ)
    → now.tv_nsec < nanoseconds_per_second
    → now.tv_sec < 2 ^ 62
    → nanoseconds < 2 ^ 62
    → ((deadline now nanoseconds).tv_nsec < nanoseconds_per_second)
      × ((deadline now nanoseconds).tv_sec < 2 ^ 63)
      × (since_epoch (deadline now nanoseconds) ≡ since_epoch now + nanoseconds)
unfolding deadline
deadline-since_epoch now nanoseconds h s n = (omega arith, omega arith, omega arith)
