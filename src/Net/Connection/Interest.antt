-- ===== src/Net/Connection/Interest.antt =====
-- net/TcpConnection.cpp: while bytes wait on an open connection, epoll watches for room.
use rabbit_server.Prelude.{
  ◌+◌, ◌<◌, ◌≡◌, inl, inr, refl, ap, sym, ◌∙◌, Bool, true, false, not, ◌||◌, List, [], ◌∷◌, arith,
  ltb, Bytes, length, drop, Bool-cases, length-append, length-drop, ltb→lt, lt→ltb,
}
use rabbit_server.Vector.{Allocator}
use rabbit_server.Buffer.Contents.{IsValid, length-contents}
use rabbit_server.Buffer.Append.{Keeps, contents-append, append-IsValid}
use rabbit_server.Buffer.{
  Buffer, contents, readable_bytes, append, retrieve, ReadOutcome, failed, received, read_fd,
}
use rabbit_server.Net.Channel.{enable_writing, disable_writing, disable_all}
use rabbit_server.Net.Connection.Stream.{Admits, AdmitsAll, done, next, step-Carries}
use rabbit_server.Net.Connection.{
  State, connected, disconnected, disconnecting, TcpConnection, WriteOutcome, is_connected,
  is_disconnecting, is_connecting, handle_close, connection_destroyed, handle_hup, handle_read,
  close_connection, close_connection_in_loop, direct_count, keep_rest, send_in_loop, send, drained,
  handle_write, Event, sends, runs_send, writable, readable, closes, runs_close, hangs_up, destroys,
  step, run,
}

abbrev pub is_open : State → Bool
is_open connected = true
is_open disconnecting = true
is_open _ = false

pub record IsWatched (c : TcpConnection) : Type 0 where
  pub begun : is_connecting c.state ≡ false
  pub waits : is_open c.state ≡ true → c.channel.writing ≡ ltb 0 (readable_bytes c.out_buffer)
  pub flag : c.channel.events.epollout ≡ c.channel.writing
  pub drains : c.state ≡ disconnecting → c.channel.writing ≡ true

readable-append :
    (a : Allocator) (b : Buffer) (s : Bytes)
    → IsValid b
    → Keeps b (length s)
    → readable_bytes (append a b s) ≡ readable_bytes b + length s
readable-append a b s v k = omega (
  arith,
  length-contents b v,
  length-contents (append a b s) (append-IsValid a b s v),
  ap length (contents-append a b s v k),
  length-append (contents b) s,
)

closed :
    (c : TcpConnection)
    → IsWatched (record c { state = disconnected; channel = disable_all c.channel })
unfolding disable_all
closed c = record { begun = refl; waits = λ h. cc; flag = refl; drains = λ h. cc }

handle_close-IsWatched : (c : TcpConnection) → IsWatched c → IsWatched (handle_close c).0
unfolding handle_close
handle_close-IsWatched c w = elim (Bool-cases (is_disconnecting c.state || is_connected c.state)) [
  | inl live ↦ rw live (closed c)
  | inr gone ↦ rw gone w
]

handle_read-IsWatched :
    (a : Allocator) (c : TcpConnection) (r : ReadOutcome)
    → IsWatched c
    → IsWatched (handle_read a c r).0
unfolding handle_read
handle_read-IsWatched a c (failed e) w = record {
  begun = w.begun;
  waits = w.waits;
  flag = w.flag;
  drains = w.drains;
}
handle_read-IsWatched a c (received []) w =
    handle_close-IsWatched (record c { in_buffer = read_fd a c.in_buffer (received []) })
      (record { begun = w.begun; waits = w.waits; flag = w.flag; drains = w.drains })
handle_read-IsWatched a c (received (x ∷ xs)) w = record {
  begun = w.begun;
  waits = w.waits;
  flag = w.flag;
  drains = w.drains;
}

-- With the flags down and the state not one of the open ones.
down :
    (c : TcpConnection)
    → is_connecting c.state ≡ false
    → is_open c.state ≡ false
    → IsWatched (record c { channel = disable_all c.channel })
unfolding disable_all
down c b h = record { begun = b; waits = λ e. cc; flag = refl; drains = λ e. ground arith }

destroyed-IsWatched : (c : TcpConnection) → IsWatched c → IsWatched (connection_destroyed c).0
unfolding connection_destroyed
destroyed-IsWatched c w = elim (Bool-cases (is_connected c.state || is_disconnecting c.state)) [
  | inl live ↦
      rw live (down (record c { state = disconnected; channel = disable_all c.channel }) refl refl)
  | inr gone ↦ rw gone (down c w.begun (ground arith))
]

close_in_loop-IsWatched :
    (c : TcpConnection) → IsWatched c → IsWatched (close_connection_in_loop c).0
unfolding close_connection_in_loop
close_in_loop-IsWatched c w = elim (Bool-cases (is_connected c.state || is_connecting c.state)) [
  | inr gone ↦ rw gone w
  | inl live ↦ rw live (elim (Bool-cases (not c.channel.writing)) [
    | inl idle ↦ rw idle (handle_close-IsWatched c w)
    | inr busy ↦ rw busy (record {
      begun = refl;
      waits = λ h. w.waits (ground (arith, w.begun));
      flag = w.flag;
      drains = λ h. ground arith;
    })
  ])
]

keep_rest-IsWatched :
    (a : Allocator) (c : TcpConnection) (rest : Bytes)
    → IsValid c.out_buffer
    → Keeps c.out_buffer (length rest)
    → 0 < length rest
    → IsWatched c
    → IsWatched (keep_rest a c rest).0
unfolding keep_rest enable_writing
keep_rest-IsWatched a c rest v k pos w = elim (Bool-cases (not c.channel.writing)) [
  | inl idle ↦
      rw idle
        (record { begun = w.begun; waits = λ h. sym waiting; flag = refl; drains = λ h. refl })
  | inr busy ↦ rw busy (record {
    begun = w.begun;
    waits = λ h. (let e : c.channel.writing ≡ true = ground arith in e) ∙ sym waiting;
    flag = w.flag;
    drains = w.drains;
  })
]
  where
    waiting : ltb 0 (readable_bytes (append a c.out_buffer rest)) ≡ true
    waiting = lt→ltb 0 _ (omega (arith, pos, readable-append a c.out_buffer rest v k))

send_in_loop-IsWatched :
    (a : Allocator) (c : TcpConnection) (bytes : Bytes) (outcome : WriteOutcome)
    → IsValid c.out_buffer
    → Keeps c.out_buffer (length (drop (direct_count c outcome) bytes))
    → IsWatched c
    → IsWatched (send_in_loop a c bytes outcome).0
unfolding send_in_loop
send_in_loop-IsWatched a c bytes outcome v k w =
    elim (Bool-cases (ltb (direct_count c outcome) (length bytes))) [
      | inr all_gone ↦ rw all_gone w
      | inl some_left ↦
          let h = ltb→lt (direct_count c outcome) (length bytes) some_left in
          rw some_left (
            keep_rest-IsWatched a c (drop (direct_count c outcome) bytes) v k
              (omega (arith, h, length-drop (direct_count c outcome) bytes)) w)
    ]

handle_write-IsWatched :
    (c : TcpConnection) (outcome : WriteOutcome)
    → IsWatched c
    → IsWatched (handle_write c outcome).0
unfolding handle_write drained handle_close disable_writing disable_all retrieve
handle_write-IsWatched c outcome w = ground arith

pub step-IsWatched :
    (a : Allocator) (c : TcpConnection) (e : Event)
    → IsValid c.out_buffer
    → Admits c e
    → IsWatched c
    → IsWatched (step a c e).0
unfolding step send handle_hup close_connection
step-IsWatched a c (sends bytes outcome) v k w = elim (Bool-cases (is_connected c.state)) [
  | inl up ↦ rw up (send_in_loop-IsWatched a c bytes outcome v k w)
  | inr not_up ↦ rw not_up w
]
step-IsWatched a c (runs_send bytes outcome) v k w = send_in_loop-IsWatched a c bytes outcome v k w
step-IsWatched a c (writable outcome) v k w = handle_write-IsWatched c outcome w
step-IsWatched a c (readable outcome) v k w = handle_read-IsWatched a c outcome w
step-IsWatched a c closes v k w = w
step-IsWatched a c runs_close v k w = close_in_loop-IsWatched c w
step-IsWatched a c hangs_up v k w = destroyed-IsWatched c w
step-IsWatched a c destroys v k w = destroyed-IsWatched c w

-- While a connection is open, its channel is in the writing state exactly if bytes wait in the
-- output buffer, the flags for epoll ask for room exactly in that state, and a connection that waits
-- to be closed still writes: once this holds, every history of events keeps it, if the output buffer
-- is valid and its vector can keep what each event appends.
pub run-IsWatched :
    (a : Allocator) (c : TcpConnection) (es : List Event)
    → IsValid c.out_buffer
    → AdmitsAll a c es
    → IsWatched c
    → IsWatched (run a c es).0
unfolding run
run-IsWatched a c [] v done w = w
run-IsWatched a c (e ∷ es) v (next k ks) w =
    run-IsWatched a (step a c e).0 es (step-Carries a c e v k).valid ks (step-IsWatched a c e v k w)
