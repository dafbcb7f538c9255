-- ===== src/Http/Connection/Served.antt =====
-- HTTP/HttpServer.cpp and net/TcpConnection.cpp: from the bytes of a request to those of its response.
use rabbit_server.Prelude.{
  ℕ, suc, ◌≤◌, ◌<◌, ◌^◌, ◌≡◌, inl, inr, refl, ap, sym, subst, ◌∙◌, Bool, true, false, some, List,
  [], ◌∷◌, ◌++◌, arith, Bytes, length, if◌then◌else◌, ok, append-nil, length-append,
}
use rabbit_server.Vector.{Allocator}
use rabbit_server.Buffer.Contents.{IsTidy, IsValid, length-contents}
use rabbit_server.Buffer.ReadFd.{contents-read_fd, Catches}
use rabbit_server.Buffer.{contents, default_init_size, received, read_fd}
use rabbit_server.Http.Request.{Version}
use rabbit_server.Http.Response.Render.{head_text, render, contents-append_to_buffer}
use rabbit_server.Http.Context.Message.{Message, IsWellFormed, print, start, complete_with}
use rabbit_server.Http.Server.{HttpCallback, send, close_connection, on_request}
use rabbit_server.Http.Server.OnMessage.{on_message-Answered}
use rabbit_server.Http.Connection.{carry_out, carry_out_all, respond, handle_readable}
use rabbit_server.Net.Connection
use rabbit_server.Net.Connection.{
  TcpConnection, connected, Effect, queue_close, message_callback, updates, wrote, WriteOutcome,
  run, is_connected, step, sends, send_in_loop, keep_rest, handle_read,
}
use rabbit_server.Net.Connection.Carries.{wire, wire-append, pending}
use rabbit_server.Net.Connection.Stream.{accepted, step-Carries}
use rabbit_server.Net.Connection.Interest.{IsWatched, step-IsWatched}
use rabbit_server.Net.Connection.Closing.{no_pending, total, closing, Closed, run-Closed}
use rabbit_server.Http.Connection.Sent.{IsIdle, closings, closings-append, response_to, send-Sent}

module _ (a : Allocator) (callback : HttpCallback) (now : ℕ) (outcomes : ℕ → WriteOutcome) where
  -- What the connection makes of a request.
  pub record Served (v : Version) (m : Message) (c : TcpConnection) (bytes : Bytes) : Type 0 where
    pub connection : TcpConnection
    pub effects : List Effect
    pub result :
        handle_readable a callback now outcomes
          (record { context = some (start v); connection = c })
          (received bytes)
        ≡ ok (record { context = some (start m.version); connection = connection }, effects)
    pub sent : wire effects ++ pending connection ≡ render (response_to callback now m)
    pub closes : closings effects ≡ (if (response_to callback now m).close_connection then 1 else 0)
    pub still_up : connection.state ≡ connected
    pub watched : IsWatched connection
    pub out_valid : IsValid connection.out_buffer
    pub in_valid : IsValid connection.in_buffer
    pub in_empty : contents connection.in_buffer ≡ []
    pub tidy :
        (memory : ℕ)
        → IsTidy memory (read_fd a c.in_buffer (received bytes))
        → IsTidy memory connection.in_buffer
    pub out_kept : connection.channel.writing ≡ false → connection.out_buffer ≡ c.out_buffer

  on_request_is :
      (m : Message)
      → length (head_text (response_to callback now m)) ≤ default_init_size
      → length (response_to callback now m).body < 2 ^ 31
      → on_request a callback (complete_with now m).request
        ≡ send (render (response_to callback now m))
          ∷ (if (response_to callback now m).close_connection then close_connection ∷ [] else [])
  unfolding on_request
  on_request_is m h k =
      rw (contents-append_to_buffer a (response_to callback now m) default_init_size h k) refl

  -- The calls for a response, carried out on an idle connection.
  record Performed (c : TcpConnection) (s : Bytes) (close : Bool) (r : TcpConnection × List Effect)
      : Type 0 where
    sent : wire r.1 ++ pending r.0 ≡ s
    closes : closings r.1 ≡ (if close then 1 else 0)
    up : r.0.state ≡ connected
    watched : IsWatched r.0
    valid : IsValid r.0.out_buffer
    same_input : r.0.in_buffer ≡ c.in_buffer
    same_output : r.0.channel.writing ≡ false → r.0.out_buffer ≡ c.out_buffer

  -- The call of `closeConnection`, if there is one.
  carry_out_close :
      (close : Bool) (d : TcpConnection) (os : ℕ → WriteOutcome)
      → d.state ≡ connected
      → carry_out_all a os (if close then close_connection ∷ [] else []) d
        ≡ (d, if close then queue_close ∷ [] else [])
  unfolding carry_out_all carry_out Connection.close_connection
  carry_out_close true d os up = rw up refl
  carry_out_close false d os up = refl

  closing-quiet : (close : Bool) → wire (if close then queue_close ∷ [] else []) ≡ []
  closing-quiet true = refl
  closing-quiet false = refl

  closings-closing :
      (close : Bool) → closings (if close then queue_close ∷ [] else []) ≡ (if close then 1 else 0)
  closings-closing true = refl
  closings-closing false = refl

  carry_out_all-Performed :
      (c : TcpConnection) (s : Bytes) (close : Bool)
      → IsIdle c
      → Performed c s close
          (carry_out_all a outcomes (send s ∷ (if close then close_connection ∷ [] else [])) c)
  unfolding carry_out_all carry_out step
  carry_out_all-Performed c s close i =
      let e = sends s (outcomes 0) in
      let r = step a c e in
      let carried = step-Carries a c e i.out_valid (inr (inr i.in_size)) in
      let kept = send-Sent a c s (outcomes 0) in
      let up = kept.same_state ∙ i.up in
      let end : List Effect = if close then queue_close ∷ [] else [] in
      rw (carry_out_close close r.0 (λ n. outcomes (suc n)) up) (record {
        sent =
            ap (λ w. w ++ pending r.0)
              (wire-append r.1 end
                ∙ ap (◌++◌ (wire r.1)) (closing-quiet close)
                ∙ append-nil (wire r.1))
            ∙ carried.stream
            ∙ ap (λ p. p ++ accepted c e) (no_pending c i.all_sent)
            ∙ ap (λ t. if is_connected t then s else []) i.up;
        closes = omega (arith, closings-append r.1 end, kept.no_close, closings-closing close);
        up = up;
        watched = step-IsWatched a c e i.out_valid (inr (inr i.in_size)) i.watched;
        valid = carried.valid;
        same_input = kept.same_input;
        same_output = kept.same_output;
      })

  -- From the bytes of a request to those of its response: an established connection that has sent
  -- all of its earlier bytes, with a context that expects a request line, reads bytes that complete
  -- a well-formed request, for which its input buffer has room; the status line and headers of the
  -- response fit into 1024 bytes and its body is below 2^31 bytes. Then the read handler returns,
  -- what `write` took and then what waits in the output buffer is exactly the printed response,
  -- `closeConnection` queues its functor exactly if the response says so, the request is gone from
  -- the input buffer, the context is reset but for the version, and the connection stays established
  -- and watched.
  pub handle_readable-Served :
      (v : Version) (m : Message) (c : TcpConnection) (bytes : Bytes)
      → IsIdle c
      → IsWellFormed m
      → contents c.in_buffer ++ bytes ≡ print m []
      → 0 < length bytes
      → Catches c.in_buffer bytes
      → length (head_text (response_to callback now m)) ≤ default_init_size
      → length (response_to callback now m).body < 2 ^ 31
      → Served v m c bytes
  unfolding handle_readable respond handle_read
  handle_readable-Served v m c [] i w whole some_read room h k = absurd (omega arith)
  handle_readable-Served v m c (x ∷ xs) i w whole some_read room h k =
      let b = read_fd a c.in_buffer (received (x ∷ xs)) in
      let (kept, valid) = contents-read_fd a c.in_buffer (received (x ∷ xs)) i.in_valid room in
      let answered =
        on_message-Answered a callback now v m b [] valid w (inl refl) (kept ∙ whole) in
      let s = render (response_to callback now m) in
      let close = (response_to callback now m).close_connection in
      let c' : TcpConnection = record c { in_buffer = answered.buffer } in
      let i' : IsIdle c' = record {
        up = i.up;
        watched = record {
          begun = i.watched.begun;
          waits = i.watched.waits;
          flag = i.watched.flag;
          drains = i.watched.drains;
        };
        in_valid = answered.valid;
        out_valid = i.out_valid;
        all_sent = i.all_sent;
        in_size = i.in_size;
      } in
      let done = carry_out_all-Performed c' s close i' in
      let r =
        carry_out_all a outcomes (send s ∷ (if close then close_connection ∷ [] else [])) c' in
      record {
        connection = r.0;
        effects = message_callback ∷ r.1;
        result = rw (answered.result, on_request_is m h k) refl;
        sent = done.sent;
        closes = done.closes;
        still_up = done.up;
        watched = done.watched;
        out_valid = done.valid;
        in_valid = subst IsValid (sym done.same_input) answered.valid;
        tidy = λ memory t. subst (IsTidy memory) (sym done.same_input) (answered.tidy memory t);
        out_kept = done.same_output;
        in_empty = ap contents done.same_input ∙ answered.left;
      }

-- A response is sent whole before its connection is closed: once a request is served, the functor of
-- `closeConnection` followed by writes that take at least as many bytes as the response has leaves
-- the connection disconnected with nothing to send and the server told once, and the socket has then
-- taken the printed response, whole and nothing else.
pub closing-Served :
    (a : Allocator) (callback : HttpCallback) (now : ℕ) (outcomes : ℕ → WriteOutcome) (v : Version)
    (m : Message) (c : TcpConnection) (bytes : Bytes)
    (served : Served a callback now outcomes v m c bytes) (os : List WriteOutcome)
    → length (render (response_to callback now m)) ≤ total os
    → Closed (run a served.connection (closing os))
      × (wire served.effects ++ wire (run a served.connection (closing os)).1
          ≡ render (response_to callback now m))
closing-Served a callback now outcomes v m c bytes served os enough =
    let d = served.connection in
    let (closed, all) = run-Closed a d os served.still_up served.out_valid served.watched (
      omega (
        arith,
        enough,
        length-contents d.out_buffer served.out_valid,
        ap length served.sent,
        length-append (wire served.effects) (pending d),
      )) in
    (closed, ap (◌++◌ (wire served.effects)) all ∙ served.sent)
