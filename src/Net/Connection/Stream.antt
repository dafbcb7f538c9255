-- ===== src/Net/Connection/Stream.antt =====
-- net/TcpConnection.cpp: what is sent reaches the socket in order, each byte once.
use rabbit_server.Prelude.{
  ◌≡◌, inl, inr, refl, ap, sym, ◌∙◌, List, [], ◌∷◌, ◌++◌, if◌then◌else◌, Bytes, length, drop,
  append_assoc, append-nil, Bool-cases,
}
use rabbit_server.Vector.{Allocator}
use rabbit_server.Buffer.Contents.{IsValid}
use rabbit_server.Buffer.Append.{Keeps}
use rabbit_server.Net.Connection.{
  TcpConnection, is_connected, connection_destroyed, direct_count, send, Event, sends, runs_send,
  writable, readable, closes, runs_close, hangs_up, destroys, step, run,
}
use rabbit_server.Net.Connection.Carries.{
  send_in_loop-Carries, wire, wire-append, handle_hup-Carries, connection_destroyed-quiet, Carries,
  handle_write-Carries, close_connection-Carries, quiet, handle_read-Carries, pending,
  close_in_loop-Carries,
}

-- The bytes that an event hands to the connection for sending: a call of `send` counts while the
-- connection is established.
abbrev pub accepted : TcpConnection → Event → Bytes
accepted c (sends bytes outcome) = if is_connected c.state then bytes else []
accepted c (runs_send bytes outcome) = bytes
accepted c _ = []

-- What an event needs of the output buffer's vector.
abbrev pub Admits : TcpConnection → Event → Type 0
Admits c (sends bytes outcome) = Keeps c.out_buffer (length (drop (direct_count c outcome) bytes))
Admits c (runs_send bytes outcome) =
    Keeps c.out_buffer (length (drop (direct_count c outcome) bytes))
Admits c _ = Unit {0}

module _ (a : Allocator) where
  pub step-Carries :
      (c : TcpConnection) (e : Event)
      → IsValid c.out_buffer
      → Admits c e
      → Carries c (accepted c e) (step a c e)
  unfolding step send
  step-Carries c (sends bytes outcome) v k = elim (Bool-cases (is_connected c.state)) [
    | inl up ↦ rw up (send_in_loop-Carries a c bytes outcome v k)
    | inr down ↦ rw down (quiet c _ v refl refl)
  ]
  step-Carries c (runs_send bytes outcome) v k = send_in_loop-Carries a c bytes outcome v k
  step-Carries c (writable outcome) v k = handle_write-Carries c outcome v
  step-Carries c (readable outcome) v k = handle_read-Carries a c outcome v
  step-Carries c closes v k = close_connection-Carries c v
  step-Carries c runs_close v k = close_in_loop-Carries c v
  step-Carries c hangs_up v k = handle_hup-Carries c v
  step-Carries c destroys v k =
      let (b, w) = connection_destroyed-quiet c in quiet c (connection_destroyed c) v b w

  -- Along a history: each event finds what it needs.
  pub data AdmitsAll : TcpConnection → List Event → Type 0 where
    done : {c : TcpConnection} → AdmitsAll c []
    next :
        {c : TcpConnection} {e : Event} {es : List Event}
        → Admits c e
        → AdmitsAll (step a c e).0 es
        → AdmitsAll c (e ∷ es)

  abbrev pub accepted_all : TcpConnection → List Event → Bytes
  accepted_all c [] = []
  accepted_all c (e ∷ es) = accepted c e ++ accepted_all (step a c e).0 es

  -- Over any history of events on a connection with a valid output buffer, in which the buffer's
  -- vector can keep what each event appends: the bytes that the socket took, and then those that
  -- wait in the output buffer, are the bytes that waited at first and then all that was handed over
  -- for sending. No byte is lost, doubled or reordered, whatever `write` reports.
  pub run-stream :
      (c : TcpConnection) (es : List Event)
      → IsValid c.out_buffer
      → AdmitsAll c es
      → wire (run a c es).1 ++ pending (run a c es).0 ≡ pending c ++ accepted_all c es
  unfolding run
  run-stream c [] v done = sym (append-nil (pending c))
  run-stream c (e ∷ es) v (next k ks) =
      let h = step-Carries c e v k in
      let rest = run-stream (step a c e).0 es h.valid ks in
      ap (λ w. w ++ pending (run a (step a c e).0 es).0)
        (wire-append (step a c e).1 (run a (step a c e).0 es).1)
      ∙ append_assoc (wire (step a c e).1) _ _
      ∙ ap (◌++◌ (wire (step a c e).1)) rest
      ∙ sym (append_assoc (wire (step a c e).1) (pending (step a c e).0) _)
      ∙ ap (λ w. w ++ accepted_all (step a c e).0 es) h.stream
      ∙ append_assoc (pending c) (accepted c e) _

  -- The output buffer stays valid.
  pub run-IsValid :
      (c : TcpConnection) (es : List Event)
      → IsValid c.out_buffer
      → AdmitsAll c es
      → IsValid (run a c es).0.out_buffer
  unfolding run
  run-IsValid c [] v done = v
  run-IsValid c (e ∷ es) v (next k ks) =
      run-IsValid (step a c e).0 es (step-Carries c e v k).valid ks
