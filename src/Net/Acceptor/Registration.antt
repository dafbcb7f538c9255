-- ===== src/Net/Acceptor/Registration.antt =====
-- net/Acceptor.cpp: the constructor and `registAcceptor`.
use rabbit_server.Prelude.{ℕ, ◌≡◌, refl, ap, ◌∙◌, true, List, [], ◌∷◌, ◌++◌, append_assoc}
use rabbit_server.Net.Acceptor.{int_of_fd, new_acceptor, regist_acceptor}
use rabbit_server.Net.Channel.{enable_reading}
use rabbit_server.Net.NetAddr.{NetAddr}
use rabbit_server.Net.Socket.Errors.{value_of, system_call_lem, restoring_lem}
use rabbit_server.Net.Socket.{
  Fd, Call, socket, bind, listen, setsockopt, get_flags, set_flags, tcp_nodelay, so_reuseaddr,
  Outcome, System, with_nonblock, backlog, new_socket, set_no_block, bind_addr, set_nodelay,
  set_reuse_port, start_listen,
}

abbrev pub calls_of : (ℕ → Outcome) → Fd → NetAddr → List Call
calls_of outcomes fd addr =
    socket
    ∷ get_flags fd
    ∷ set_flags fd (with_nonblock (value_of (outcomes 1)))
    ∷ setsockopt fd tcp_nodelay 1
    ∷ setsockopt fd so_reuseaddr 1
    ∷ bind fd addr
    ∷ listen fd backlog
    ∷ []

-- One call more behind the others.
grow :
    (s xs xs' : List Call) (ys : List Call) (c : Call)
    → xs ≡ s ++ ys
    → xs' ≡ xs ++ c ∷ []
    → xs' ≡ s ++ (ys ++ c ∷ [])
grow s xs xs' ys c e e' = e' ∙ ap (λ w. w ++ c ∷ []) e ∙ append_assoc s ys (c ∷ [])

new_socket-calls :
    (o flags o' : Outcome) (s : System)
    → ((new_socket o flags o' s).0 ≡ value_of o)
      × ((new_socket o flags o' s).1.calls
          ≡ s.calls
            ++ (socket
                ∷ get_flags (value_of o)
                ∷ set_flags (value_of o) (with_nonblock (value_of flags))
                ∷ []))
unfolding new_socket set_no_block
new_socket-calls o flags o' s =
    let one = system_call_lem socket o s in
    rw
      (
        one,
        system_call_lem (get_flags (value_of o)) flags,
        system_call_lem (set_flags (value_of o) (with_nonblock (value_of flags))) o',
      )
      (
        refl,
        append_assoc (s.calls ++ socket ∷ []) (get_flags (value_of o) ∷ [])
              (set_flags (value_of o) (with_nonblock (value_of flags)) ∷ [])
            ∙ append_assoc s.calls (socket ∷ []) _,
      )

-- Constructing an acceptor and registering it makes the same seven system calls on its socket
-- whatever they report, in this order: a new socket, its flags read and set, the two options, `bind`
-- and `listen`; in the end the channel has the socket's descriptor, or that of -1 in 32 bits if no
-- socket was made, its flags ask for reading and its read callback is set, even if `bind` failed.
pub regist_acceptor_unchecked :
    (addr : NetAddr) (outcomes : ℕ → Outcome) (s : System)
    → let fd = value_of (outcomes 0) in
      let made = new_acceptor addr outcomes s in
      let heard = regist_acceptor made.0 (outcomes 6) made.1 in
      (heard.1.calls ≡ s.calls ++ calls_of outcomes fd addr)
      × (heard.0.sock ≡ fd)
      × (heard.0.channel.fd ≡ int_of_fd fd)
      × (heard.0.channel.events.epollin ≡ true)
      × (heard.0.channel.callbacks.has_read ≡ true)
unfolding new_acceptor regist_acceptor enable_reading
regist_acceptor_unchecked addr outcomes s =
    let fd = value_of (outcomes 0) in
    let r = restoring_lem fd addr true in
    let (same, first) = new_socket-calls (outcomes 0) (outcomes 1) (outcomes 2) s in
    let s1 = (new_socket (outcomes 0) (outcomes 1) (outcomes 2) s).1 in
    let s2 = (set_nodelay fd true (outcomes 3) s1).1 in
    let s3 = (set_reuse_port fd true (outcomes 4) s2).1 in
    let s4 = (bind_addr fd addr (outcomes 5) s3).1 in
    let s5 = (start_listen fd (outcomes 6) s4).1 in
    rw same (
      grow s.calls s4.calls s5.calls _ _
          (grow s.calls s3.calls s4.calls _ _
            (grow s.calls s2.calls s3.calls _ _
              (grow s.calls s1.calls s2.calls _ _ first (ap (λ x. x.1.calls) (r (outcomes 3) s1).3))
              (ap (λ x. x.1.calls) (((r (outcomes 4) s2).5) ∙ (r (outcomes 4) s2).4)))
            (ap (λ x. x.1.calls) (r (outcomes 5) s3).0))
          (ap (λ x. x.1.calls) (r (outcomes 6) s4).1),
      refl,
      refl,
      refl,
      refl,
    )
