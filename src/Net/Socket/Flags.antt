-- ===== src/Net/Socket/Flags.antt =====
-- net/Socket.cpp: the flags of a descriptor.
use rabbit_server.Prelude.{
  ℕ, ◌*◌, ◌/◌, ◌%◌, ◌^◌, ◌<◌, ◌≡◌, refl, inl, inr, some, arith, ◌==◌, Bool-cases, ==_iff,
}
use rabbit_server.Net.Socket.{with_nonblock, o_nonblock}

-- Thirty-two bits, the bit of `O_NONBLOCK` set, and the others as they were.
pub record IsNonblocking (old new : ℕ) : Type 0 where
  pub fits : new < 2 ^ 32
  pub set : new / o_nonblock % 2 ≡ 1
  pub below : new % o_nonblock ≡ old % o_nonblock
  pub above : new / (2 * o_nonblock) ≡ old / (2 * o_nonblock)

-- The flags that `setNoBlock` sets for flags of 32 bits have 32 bits, the bit of `O_NONBLOCK` set,
-- and all other bits as they were.
pub with_nonblock-IsNonblocking :
    (flags : ℕ) → flags < 2 ^ 32 → IsNonblocking flags (with_nonblock (some flags))
unfolding with_nonblock
with_nonblock-IsNonblocking flags h = elim (Bool-cases (flags / o_nonblock % 2 == 1)) [
  | inl already ↦
      rw already (record { fits = h; set = (==_iff _ _).0 already; below = refl; above = refl })
  | inr not_yet ↦
      let even : flags / o_nonblock % 2 ≡ 0 = ground (arith, not_yet) in
      rw not_yet (record {
        fits = omega (arith, even);
        set = omega (arith, even);
        below = omega (arith, even);
        above = omega (arith, even);
      })
]
