-- ===== src/Net/Socket/Errors.antt =====
-- net/Socket.cpp: the functions that may fail.
use rabbit_server.Prelude.{
  ℕ, ◌≡◌, inl, inr, refl, Bool, Option, none, some, ◌∷◌, [], ◌++◌, ◌==◌, Bool-cases, if◌then◌else◌,
}
use rabbit_server.Net.NetAddr.{NetAddr}
use rabbit_server.Net.Socket.{
  Fd, Call, bind, listen, connect, setsockopt, tcp_nodelay, so_reuseaddr, Outcome, failed,
  succeeded, System, restoring, system_call, bind_addr, start_listen, set_nodelay, set_reuse_addr,
  set_reuse_port, connect_to, backlog,
}

abbrev pub value_of : Outcome → Option ℕ
value_of (failed e) = none
value_of (succeeded n) = some n

abbrev errno_after : Outcome → ℕ → ℕ
errno_after (failed e) n = e
errno_after (succeeded v) n = n

pub system_call_lem :
    (c : Call) (o : Outcome) (s : System)
    → system_call c o s
      ≡ (value_of o, record { errno = errno_after o s.errno; calls = s.calls ++ c ∷ [] })
unfolding system_call
system_call_lem c (failed e) s = refl
system_call_lem c (succeeded n) s = refl

-- One system call, whose value comes back, and `errno` as it was.
abbrev pub IsQuiet : Call → Outcome → System → Option ℕ × System → Type 0
IsQuiet c outcome s r = r ≡ (value_of outcome, record s { calls = s.calls ++ c ∷ [] })

restoring-IsQuiet : (c : Call) (o : Outcome) (s : System) → IsQuiet c o s (restoring c o s)
unfolding restoring system_call
restoring-IsQuiet c (failed e) s = refl
restoring-IsQuiet c (succeeded n) s = elim (Bool-cases (n == 0)) [
  | inl zero_there ↦ rw zero_there refl
  | inr other ↦ rw other refl
]

abbrev number : Bool → ℕ
number op = if op then 1 else 0

-- `bindAddr`, `startListen`, `connectTo`, `setNodelay` and `setReuseAddr` each make one system call,
-- with what they were given, return what it reports, and leave `errno` as it was, on errors too;
-- `setReusePort` does what `setReuseAddr` does.
pub restoring_lem :
    (fd : Fd) (addr : NetAddr) (op : Bool) (o : Outcome) (s : System)
    → IsQuiet (bind fd addr) o s (bind_addr fd addr o s)
      × IsQuiet (listen fd backlog) o s (start_listen fd o s)
      × IsQuiet (connect fd addr) o s (connect_to fd addr o s)
      × IsQuiet (setsockopt fd tcp_nodelay (number op)) o s (set_nodelay fd op o s)
      × IsQuiet (setsockopt fd so_reuseaddr (number op)) o s (set_reuse_addr fd op o s)
      × (set_reuse_port fd op o s ≡ set_reuse_addr fd op o s)
unfolding bind_addr start_listen connect_to set_nodelay set_reuse_addr set_reuse_port
restoring_lem fd addr op o s = (
  restoring-IsQuiet _ o s,
  restoring-IsQuiet _ o s,
  restoring-IsQuiet _ o s,
  restoring-IsQuiet _ o s,
  restoring-IsQuiet _ o s,
  refl,
)
