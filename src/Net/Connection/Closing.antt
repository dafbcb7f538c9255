-- ===== src/Net/Connection/Closing.antt =====
-- net/TcpConnection.cpp: a connection that is closed while bytes wait sends them first.
use rabbit_server.Prelude.{
  ℕ, ◌+◌, ◌≤◌, ◌<◌, ◌≡◌, ◌⊎◌, inl, inr, refl, ap, sym, ◌∙◌, true, false, List, [], ◌∷◌, ◌++◌, arith,
  map, leb, Bool-cases, append-nil, length-take, drop-length, take,
}
use rabbit_server.Vector.{Allocator}
use rabbit_server.Buffer.Contents.{IsValid}
use rabbit_server.Buffer.{readable_bytes, retrieve}
use rabbit_server.Net.Channel.{disable_all}
use rabbit_server.Net.Connection.Carries.{wire, pending}
use rabbit_server.Net.Connection.Interest.{IsWatched}
use rabbit_server.Net.Connection.Lifecycle.{close_count, close_count-append}
use rabbit_server.Net.Connection.Stream.{AdmitsAll, done, next, run-stream, accepted_all}
use rabbit_server.Net.Connection.{
  TcpConnection, updates, close_callback, connected, disconnected, disconnecting, WriteOutcome,
  count_of, Handled, handle_close, close_connection_in_loop, drained, handle_write, Event, writable,
  runs_close, step, run,
}

-- How many bytes the writes take, of those that are asked.
abbrev pub total : List WriteOutcome → ℕ
total [] = 0
total (o ∷ os) = count_of o + total os

-- The functor of `closeConnection`, and the socket ready for writing, time after time.
abbrev pub closing : List WriteOutcome → List Event
closing os = runs_close ∷ map writable os

-- How a connection is left: closed, with nothing to send.
pub record Closed (r : Handled) : Type 0 where
  pub ended : r.0.state ≡ disconnected
  pub told_once : close_count r.1 ≡ 1
  pub none_left : readable_bytes r.0.out_buffer ≡ 0

-- The socket takes some of the bytes, and some are left.
record GoesOn (c : TcpConnection) (n : ℕ) (r : Handled) : Type 0 where
  waits : r.0.state ≡ disconnecting
  writes : r.0.channel.writing ≡ true
  quiet : close_count r.1 ≡ 0
  left : n + readable_bytes r.0.out_buffer ≡ readable_bytes c.out_buffer

handle_write_ignores :
    (c : TcpConnection) (o : WriteOutcome) → c.channel.writing ≡ false → handle_write c o ≡ (c, [])
unfolding handle_write
handle_write_ignores c o w = rw w refl

handle_write_some :
    (c : TcpConnection) (o : WriteOutcome)
    → c.state ≡ disconnecting
    → c.channel.writing ≡ true
    → 0 < readable_bytes c.out_buffer
    → ((readable_bytes c.out_buffer ≤ count_of o)
        × Closed (handle_write c o)
        × ((handle_write c o).0.channel.writing ≡ false))
      ⊎ ((count_of o < readable_bytes c.out_buffer) × GoesOn c (count_of o) (handle_write c o))
unfolding handle_write drained handle_close retrieve disable_all
handle_write_some c o st w pos =
    elim (Bool-cases (leb (readable_bytes c.out_buffer) (count_of o))) [
      | inl all ↦ inl (
        ground arith,
        record { ended = ground arith; told_once = ground arith; none_left = ground arith },
        ground arith,
      )
      | inr few ↦ inr (
        ground arith,
        record {
          waits = ground arith;
          writes = ground arith;
          quiet = ground arith;
          left = ground arith;
        },
      )
    ]

closes_idle :
    (c : TcpConnection)
    → c.state ≡ connected
    → c.channel.writing ≡ false
    → close_connection_in_loop c ≡ (
      record c { state = disconnected; channel = disable_all c.channel },
      updates ∷ close_callback ∷ [],
    )
unfolding close_connection_in_loop handle_close
closes_idle c up idle = rw (up, idle) refl

closes_busy :
    (c : TcpConnection)
    → c.state ≡ connected
    → c.channel.writing ≡ true
    → close_connection_in_loop c ≡ (record c { state = disconnecting }, [])
unfolding close_connection_in_loop
closes_busy c up busy = rw (up, busy) refl

no_writing : (c : TcpConnection) → (disable_all c.channel).writing ≡ false
unfolding disable_all
no_writing c = refl

pub no_pending : (c : TcpConnection) → readable_bytes c.out_buffer ≡ 0 → pending c ≡ []
no_pending c h =
    let b = c.out_buffer in
    drop-length b.read_index (take b.write_index b.buffer.storage)
      (omega (arith, h, length-take b.write_index b.buffer.storage))

module _ (a : Allocator) where
  -- A connection that does not write ignores a ready socket.
  pub run_ignores :
      (c : TcpConnection) (os : List WriteOutcome)
      → c.channel.writing ≡ false
      → run a c (map writable os) ≡ (c, [])
  unfolding run step
  run_ignores c [] w = refl
  run_ignores c (o ∷ os) w = rw (handle_write_ignores c o w, run_ignores c os w) refl

  run_drains :
      (c : TcpConnection) (os : List WriteOutcome)
      → c.state ≡ disconnecting
      → c.channel.writing ≡ true
      → 0 < readable_bytes c.out_buffer
      → readable_bytes c.out_buffer ≤ total os
      → Closed (run a c (map writable os))
  unfolding run step
  run_drains c [] st w pos h = absurd (omega arith)
  run_drains c (o ∷ os) st w pos h =
      let d = (handle_write c o).0 in
      let after = run a d (map writable os) in
      elim (handle_write_some c o st w pos) [
        | inl (_, closed, idle) ↦ rw (run_ignores d os idle) (record {
          ended = closed.ended;
          told_once = omega (arith, closed.told_once, close_count-append (handle_write c o).1 []);
          none_left = closed.none_left;
        })
        | inr (few, more) ↦
            let rest =
              run_drains d os more.waits more.writes (omega (arith, more.left))
                (omega (arith, more.left)) in
            record {
              ended = rest.ended;
              told_once = omega (
                arith,
                rest.told_once,
                more.quiet,
                close_count-append (handle_write c o).1 after.1,
              );
              none_left = rest.none_left;
            }
      ]

  run-closing :
      (c : TcpConnection) (os : List WriteOutcome)
      → c.state ≡ connected
      → IsWatched c
      → readable_bytes c.out_buffer ≤ total os
      → Closed (run a c (closing os))
  unfolding run step
  run-closing c os up w h = elim (Bool-cases c.channel.writing) [
    | inr idle ↦
        rw
          (
            closes_idle c up idle,
            run_ignores (record c { state = disconnected; channel = disable_all c.channel }) os
                (no_writing c),
          )
          (record { ended = refl; told_once = refl; none_left = ground (arith, w.waits) })
    | inl busy ↦
        rw (closes_busy c up busy)
          (run_drains (record c { state = disconnecting }) os refl busy (ground (arith, w.waits)) h)
  ]

  pub closing-AdmitsAll :
      (c : TcpConnection) (os : List WriteOutcome) → AdmitsAll a c (map writable os)
  closing-AdmitsAll c [] = done
  closing-AdmitsAll c (o ∷ os) = next tt (closing-AdmitsAll (step a c (writable o)).0 os)

  pub closing-accepted :
      (c : TcpConnection) (os : List WriteOutcome) → accepted_all a c (map writable os) ≡ []
  closing-accepted c [] = refl
  closing-accepted c (o ∷ os) = closing-accepted (step a c (writable o)).0 os

  -- An established connection with a valid output buffer, watched for room exactly while bytes wait:
  -- after the functor of `closeConnection`, and then the socket ready as often as it takes to write
  -- the waiting bytes, failed writes in between included, the connection is disconnected, the server
  -- was told once, nothing is left to send, and the socket has taken exactly the bytes that waited.
  pub run-Closed :
      (c : TcpConnection) (os : List WriteOutcome)
      → c.state ≡ connected
      → IsValid c.out_buffer
      → IsWatched c
      → readable_bytes c.out_buffer ≤ total os
      → Closed (run a c (closing os)) × (wire (run a c (closing os)).1 ≡ pending c)
  run-Closed c os up v w h =
      let d = (step a c runs_close).0 in
      let closed = run-closing c os up w h in
      (
        closed,
        sym (append-nil _)
            ∙ ap (◌++◌ (wire (run a c (closing os)).1))
                (sym (no_pending (run a c (closing os)).0 closed.none_left))
            ∙ run-stream a c (closing os) v (next tt (closing-AdmitsAll d os))
            ∙ ap (◌++◌ (pending c)) (closing-accepted d os)
            ∙ append-nil (pending c),
      )
