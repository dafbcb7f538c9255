-- ===== src/Net/Socket.antt =====
-- net/Socket.h and net/Socket.cpp. What a system call reports is an argument, and the calls are recorded
-- in order with the value of `errno`. A return value of -1 is none. `acceptConnection` stands in
-- Net/Acceptor.antt.
pub mod Errors
pub mod Flags
use rabbit_server.Prelude.{
  ℕ, ◌+◌, ◌/◌, ◌%◌, ◌^◌, ◌-◌, Bool, true, false, Option, none, some, List, [], ◌∷◌, ◌++◌,
  if◌then◌else◌, ◌==◌,
}
use rabbit_server.Net.NetAddr.{NetAddr}

pub data SocketOption : Type 0 where
  tcp_nodelay so_reuseaddr so_reuseport : SocketOption

-- A descriptor, or none for -1.
abbrev pub Fd : Type 0
Fd = Option ℕ

pub data Call : Type 0 where
  socket : Call
  close : Fd → Call
  bind : Fd → NetAddr → Call
  listen : Fd → ℕ → Call
  connect : Fd → NetAddr → Call
  setsockopt : Fd → SocketOption → ℕ → Call
  get_flags : Fd → Call
  set_flags : Fd → ℕ → Call
  get_error : Fd → Call

-- What a call reports: an error number, or a value.
pub data Outcome : Type 0 where
  failed : ℕ → Outcome
  succeeded : ℕ → Outcome

pub record System : Type 0 where
  pub errno : ℕ
  pub calls : List Call

unfoldable pub system_call : Call → Outcome → System → Option ℕ × System
system_call c (failed e) s = (none, record { errno = e; calls = s.calls ++ c ∷ [] })
system_call c (succeeded n) s = (some n, record s { calls = s.calls ++ c ∷ [] })

abbrev is_zero : Option ℕ → Bool
is_zero none = false
is_zero (some n) = n == 0

-- A call whose error is printed, with `errno` put back.
unfoldable pub restoring : Call → Outcome → System → Option ℕ × System
unfolding system_call
restoring c outcome s =
    let (ret, s') = system_call c outcome s in
    if is_zero ret then (ret, s') else (ret, record s' { errno = s.errno })

abbrev int_of : Bool → ℕ
int_of op = if op then 1 else 0

abbrev pub backlog : ℕ
backlog = 200

unfoldable pub bind_addr : Fd → NetAddr → Outcome → System → Option ℕ × System
unfolding restoring
bind_addr fd addr = restoring (bind fd addr)

unfoldable pub start_listen : Fd → Outcome → System → Option ℕ × System
unfolding restoring
start_listen fd = restoring (listen fd backlog)

unfoldable pub set_nodelay : Fd → Bool → Outcome → System → Option ℕ × System
unfolding restoring
set_nodelay fd op = restoring (setsockopt fd tcp_nodelay (int_of op))

unfoldable pub set_reuse_addr : Fd → Bool → Outcome → System → Option ℕ × System
unfolding restoring
set_reuse_addr fd op = restoring (setsockopt fd so_reuseaddr (int_of op))

unfoldable pub set_reuse_port : Fd → Bool → Outcome → System → Option ℕ × System
unfolding restoring
set_reuse_port fd op = restoring (setsockopt fd so_reuseaddr (int_of op))

unfoldable pub connect_to : Fd → NetAddr → Outcome → System → Option ℕ × System
unfolding restoring
connect_to fd addr = restoring (connect fd addr)

-- `O_NONBLOCK`, which is one bit, and `|` with it on 32 bits; -1 has all bits.
abbrev pub o_nonblock : ℕ
o_nonblock = 2048

unfoldable pub with_nonblock : Option ℕ → ℕ
with_nonblock none = 2 ^ 32 - 1
with_nonblock (some n) = if n / o_nonblock % 2 == 1 then n else n + o_nonblock

-- `setNoBlock`.
unfoldable pub set_no_block : Fd → Outcome → Outcome → System → System
unfolding system_call with_nonblock
set_no_block fd flags outcome s =
    let (option, s') = system_call (get_flags fd) flags s in
    (system_call (set_flags fd (with_nonblock option)) outcome s').1

-- The constructor, with what the three calls report; a descriptor -1 is passed on.
unfoldable pub new_socket : Outcome → Outcome → Outcome → System → Fd × System
unfolding system_call set_no_block
new_socket created flags outcome s =
    let (fd, s') = system_call socket created s in (fd, set_no_block fd flags outcome s')

-- The destructor.
unfoldable pub destroy : Fd → Outcome → System → System
unfolding system_call
destroy fd outcome s = (system_call (close fd) outcome s).1

-- `getSockError`, with the `optval` that a call fills in.
unfoldable pub get_sock_error : Fd → Outcome → System → ℕ × System
unfolding system_call
get_sock_error fd outcome s =
    let (ret, s') = system_call (get_error fd) outcome s in
    elim ret [ none ↦ (s'.errno, s') | some optval ↦ (optval, s') ]
