-- ===== src/Net/NetAddr.antt =====
-- net/NetAddr.h and net/NetAddr.cpp. An IPv4 address is its number; `inet_aton` is a parameter, which
-- gives an address or refuses the text. The port is kept in the order of the host.
use rabbit_server.Prelude.{
  ℕ, ◌%◌, ◌^◌, ◌≡◌, ◌↔◌, refl, Bool, true, false, Option, none, some, Bytes, codes, ◌==◌,
}

pub record NetAddr : Type 0 where
  pub address : ℕ
  pub port : ℕ
  pub ret : ℕ

-- What `inet_aton` returns, and what it leaves of the zeros in `sin_addr`.
abbrev aton_ret : Option ℕ → ℕ
aton_ret none = 0
aton_ret (some a) = 1

abbrev aton_address : Option ℕ → ℕ
aton_address none = 0
aton_address (some a) = a

-- `NetAddr(ip, port)`; a port has sixteen bits.
unfoldable pub from_text : (Bytes → Option ℕ) → Bytes → ℕ → NetAddr
from_text inet_aton ip port = record {
  address = aton_address (inet_aton ip);
  port = port % 2 ^ 16;
  ret = aton_ret (inet_aton ip);
}

-- `NetAddr(addr)`.
abbrev pub from_sockaddr : ℕ → ℕ → NetAddr
from_sockaddr address port = record { address = address; port = port; ret = 0 }

-- `getLocalAddr` and `getPeerAddr`, by what `getsockname` or `getpeername` reports.
unfoldable pub get_local_addr : (Bytes → Option ℕ) → Option (ℕ × ℕ) → NetAddr
unfolding from_text
get_local_addr inet_aton none = from_text inet_aton (codes "0.0.0.0") 0
get_local_addr inet_aton (some (address, port)) = from_sockaddr address port

unfoldable pub get_peer_addr : (Bytes → Option ℕ) → Option (ℕ × ℕ) → NetAddr
unfolding from_text
get_peer_addr inet_aton none = from_text inet_aton (codes "0.0.0.0") 0
get_peer_addr inet_aton (some (address, port)) = from_sockaddr address port

unfoldable pub is_valid : NetAddr → Bool
is_valid n = n.ret == 0

ret-is_valid : (o : Option ℕ) → ((aton_ret o == 0) ≡ true) ↔ (o ≡ none)
ret-is_valid none = (λ e. refl, λ e. refl)
ret-is_valid (some a) = (λ e. cc, λ e. cc)

-- For an `inet_aton` that reads "0.0.0.0": `isValid` says yes to an address that was made from a
-- text exactly if `inet_aton` refused the text; it says yes to what `getLocalAddr` gives for a
-- socket that has an address, and no to the zero address that it gives when `getsockname` fails.
pub is_valid-from_text :
    (inet_aton : Bytes → Option ℕ) (ip : Bytes) (port address any : ℕ)
    → inet_aton (codes "0.0.0.0") ≡ some any
    → ((is_valid (from_text inet_aton ip port) ≡ true) ↔ (inet_aton ip ≡ none))
      × (is_valid (get_local_addr inet_aton (some (address, port))) ≡ true)
      × (is_valid (get_local_addr inet_aton none) ≡ false)
unfolding is_valid from_text get_local_addr
is_valid-from_text inet_aton ip port address any e = (ret-is_valid (inet_aton ip), refl, rw e refl)
