-- ===== src/Http/Connection/Sending.antt =====
-- net/TcpConnection.cpp and HTTP/HttpServer.cpp: a connection that stays open sends what waits.
use rabbit_server.Prelude.{
  ℕ, ◌+◌, ◌≤◌, ◌<◌, ◌≡◌, ◌⊎◌, inl, inr, refl, ap, sym, subst, ◌∙◌, true, false, List, [], ◌∷◌, ◌++◌,
  arith, map, Bytes, length, leb, Bool-cases, append-nil, length-append,
}
use rabbit_server.Vector.{Allocator}
use rabbit_server.Buffer.Contents.{IsValid, length-contents}
use rabbit_server.Buffer.{readable_bytes, retrieve}
use rabbit_server.Http.Connection.Sent.{IsIdle, response_to}
use rabbit_server.Http.Connection.Served.{Served}
use rabbit_server.Http.Context.Message.{Message}
use rabbit_server.Http.Request.{Version}
use rabbit_server.Http.Response.Render.{render}
use rabbit_server.Http.Server.{HttpCallback}
use rabbit_server.Net.Channel.{disable_writing}
use rabbit_server.Net.Connection.{
  TcpConnection, connected, WriteOutcome, count_of, run, step, writable, handle_write, drained,
}
use rabbit_server.Net.Connection.Carries.{wire, pending}
use rabbit_server.Net.Connection.Closing.{
  total, run_ignores, no_pending, closing-AdmitsAll, closing-accepted,
}
use rabbit_server.Net.Connection.Interest.{IsWatched, run-IsWatched}
use rabbit_server.Net.Connection.Stream.{run-stream, run-IsValid}

-- An open connection that sends what waits.
record IsSent (c d : TcpConnection) : Type 0 where
  up : d.state ≡ connected
  sent : readable_bytes d.out_buffer ≡ 0
  same_input : d.in_buffer ≡ c.in_buffer

record GoesOn (c : TcpConnection) (n : ℕ) (d : TcpConnection) : Type 0 where
  up : d.state ≡ connected
  writes : d.channel.writing ≡ true
  same_input : d.in_buffer ≡ c.in_buffer
  left : n + readable_bytes d.out_buffer ≡ readable_bytes c.out_buffer

handle_write_open :
    (c : TcpConnection) (o : WriteOutcome)
    → c.state ≡ connected
    → c.channel.writing ≡ true
    → 0 < readable_bytes c.out_buffer
    → ((readable_bytes c.out_buffer ≤ count_of o)
        × IsSent c (handle_write c o).0
        × ((handle_write c o).0.channel.writing ≡ false)
        × ((handle_write c o).0.out_buffer.write_index ≡ 0))
      ⊎ ((count_of o < readable_bytes c.out_buffer) × GoesOn c (count_of o) (handle_write c o).0)
unfolding handle_write drained retrieve disable_writing
handle_write_open c o up w pos =
    elim (Bool-cases (leb (readable_bytes c.out_buffer) (count_of o))) [
      | inl all ↦ inl (
        ground arith,
        record { up = ground arith; sent = ground arith; same_input = ground arith },
        ground arith,
        ground arith,
      )
      | inr few ↦ inr (
        ground arith,
        record {
          up = ground arith;
          writes = ground arith;
          same_input = ground arith;
          left = ground arith;
        },
      )
    ]

module _ (a : Allocator) where
  run_sends :
      (c : TcpConnection) (os : List WriteOutcome)
      → c.state ≡ connected
      → c.channel.writing ≡ true
      → 0 < readable_bytes c.out_buffer
      → readable_bytes c.out_buffer ≤ total os
      → IsSent c (run a c (map writable os)).0
        × ((run a c (map writable os)).0.out_buffer.write_index ≡ 0)
  unfolding run step
  run_sends c [] up w pos h = absurd (omega arith)
  run_sends c (o ∷ os) up w pos h =
      let d = (handle_write c o).0 in
      elim (handle_write_open c o up w pos) [
        | inl (_, s, idle, front) ↦
            subst (λ r. IsSent c r.0 × (r.0.out_buffer.write_index ≡ 0))
              (sym (run_ignores a d os idle)) (s, front)
        | inr (few, more) ↦
            let (rest, front) =
              run_sends d os more.up more.writes (omega (arith, more.left))
                (omega (arith, more.left)) in
            (
              record {
                up = rest.up;
                sent = rest.sent;
                same_input = rest.same_input ∙ more.same_input;
              },
              front,
            )
      ]

  -- The writes send what waits; the output buffer starts again at the front, or was not used.
  drains :
      (c d : TcpConnection) (os : List WriteOutcome)
      → d.state ≡ connected
      → IsWatched d
      → (d.channel.writing ≡ false → d.out_buffer ≡ c.out_buffer)
      → c.out_buffer.write_index ≤ c.out_buffer.buffer.size
      → readable_bytes d.out_buffer ≤ total os
      → IsSent d (run a d (map writable os)).0
        × ((run a d (map writable os)).0.out_buffer.write_index
            ≤ (run a d (map writable os)).0.out_buffer.buffer.size)
  drains c d os up w kept small few = elim (Bool-cases d.channel.writing) [
    | inl busy ↦
        let (s, front) = run_sends d os up busy (ground (arith, w.waits)) few in
        (s, omega (arith, front))
    | inr idle ↦
        subst (λ r. IsSent d r.0 × (r.0.out_buffer.write_index ≤ r.0.out_buffer.buffer.size))
          (sym (run_ignores a d os idle))
          (
            record { up = up; sent = ground (arith, w.waits); same_input = refl },
            subst (λ b. b.write_index ≤ b.buffer.size) (sym (kept idle)) small,
          )
  ]

  -- After a response that keeps the connection, and the writes, the connection is idle.
  pub served-IsIdle :
      (callback : HttpCallback) (now : ℕ) (outcomes : ℕ → WriteOutcome) (v : Version) (m : Message)
      (c : TcpConnection) (bytes : Bytes) (served : Served a callback now outcomes v m c bytes)
      (os : List WriteOutcome)
      → IsIdle c
      → length (render (response_to callback now m)) ≤ total os
      → IsIdle (run a served.connection (map writable os)).0
        × (wire served.effects ++ wire (run a served.connection (map writable os)).1
            ≡ render (response_to callback now m))
        × ((run a served.connection (map writable os)).0.in_buffer ≡ served.connection.in_buffer)
  served-IsIdle callback now outcomes v m c bytes served os i enough =
      let d = served.connection in
      let all = closing-AdmitsAll a d os in
      let watched = run-IsWatched a d (map writable os) served.out_valid all served.watched in
      let valid = run-IsValid a d (map writable os) served.out_valid all in
      let stream = run-stream a d (map writable os) served.out_valid all in
      let few : readable_bytes d.out_buffer ≤ total os = omega (
        arith,
        enough,
        length-contents d.out_buffer served.out_valid,
        ap length served.sent,
        length-append (wire served.effects) (pending d),
      ) in
      let (done, small) =
        drains c d os served.still_up served.watched served.out_kept i.in_size few in
      let e = (run a d (map writable os)).0 in
      (
        record {
          up = done.up;
          watched = watched;
          in_valid = subst IsValid (sym done.same_input) served.in_valid;
          out_valid = valid;
          all_sent = done.sent;
          in_size = small;
        },
        ap (◌++◌ (wire served.effects)) (
              sym (append-nil _)
              ∙ ap (◌++◌ (wire (run a d (map writable os)).1)) (sym (no_pending e done.sent))
              ∙ stream
              ∙ ap (◌++◌ (pending d)) (closing-accepted a d os)
              ∙ append-nil (pending d))
            ∙ served.sent,
        done.same_input,
      )
