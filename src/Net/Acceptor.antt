-- ===== src/Net/Acceptor.antt =====
-- net/Acceptor.h, net/Acceptor.cpp and `acceptConnection` of net/Socket.cpp. A descriptor is a number,
-- or none for the -1 of a failed call.
pub mod Registration
use rabbit_server.Prelude.{
  ℕ, ◌-◌, ◌^◌, ◌≡◌, refl, Bool, true, Option, none, some, List, [], ◌∷◌, ◌++◌, Bytes, codes,
}
use rabbit_server.Net.Channel.{set_read_callback, Channel, new_channel, enable_reading}
use rabbit_server.Net.NetAddr.{NetAddr, from_text, from_sockaddr}
use rabbit_server.Net.Socket.{
  Fd, Call, socket, bind, listen, setsockopt, get_flags, set_flags, tcp_nodelay, so_reuseaddr,
  Outcome, failed, succeeded, System, new_socket, bind_addr, start_listen, set_nodelay,
  set_reuse_port, with_nonblock, backlog,
}

-- What `accept` reports: an error number, or a descriptor with the address and port of the peer.
pub data AcceptOutcome : Type 0 where
  accept_failed : ℕ → AcceptOutcome
  accepted : ℕ → ℕ → ℕ → AcceptOutcome

-- `acceptConnection(peer)`: the descriptor, and the peer that it leaves.
unfoldable pub accept_connection : AcceptOutcome → NetAddr → Option ℕ × NetAddr
accept_connection (accept_failed e) peer = (none, peer)
accept_connection (accepted fd address port) peer = (some fd, from_sockaddr address port)

-- `handleRead`: what it calls the server's callback with.
unfoldable pub handle_read : (Bytes → Option ℕ) → AcceptOutcome → Option ℕ × NetAddr
unfolding accept_connection
handle_read inet_aton outcome = accept_connection outcome (from_text inet_aton (codes "0.0.0.0") 0)

pub record Acceptor : Type 0 where
  pub addr : NetAddr
  pub sock : Fd
  pub channel : Channel

-- A descriptor as an `int` of 32 bits.
abbrev pub int_of_fd : Fd → ℕ
int_of_fd none = 2 ^ 32 - 1
int_of_fd (some fd) = fd

-- The constructor; `outcomes` says what its system calls report, in order.
unfoldable pub new_acceptor : NetAddr → (ℕ → Outcome) → System → Acceptor × System
new_acceptor addr outcomes s =
    let (fd, s1) = new_socket (outcomes 0) (outcomes 1) (outcomes 2) s in
    let s2 = (set_nodelay fd true (outcomes 3) s1).1 in
    let s3 = (set_reuse_port fd true (outcomes 4) s2).1 in
    let s4 = (bind_addr fd addr (outcomes 5) s3).1 in
    (record { addr = addr; sock = fd; channel = new_channel (int_of_fd fd) }, s4)

-- `registAcceptor`.
unfoldable pub regist_acceptor : Acceptor → Outcome → System → Acceptor × System
unfolding enable_reading
regist_acceptor a outcome s =
    let heard = set_read_callback a.channel in
    let s' = (start_listen a.sock outcome s).1 in (record a { channel = enable_reading heard }, s')
