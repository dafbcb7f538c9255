-- ===== src/Http/Connection/Sent.antt =====
-- HTTP/HttpServer.cpp and net/TcpConnection.cpp: an idle connection, and what a call of `send` leaves of it.
use rabbit_server.Prelude.{ℕ, suc, ◌+◌, ◌≤◌, ◌≡◌, true, false, List, [], ◌∷◌, ◌++◌, arith, Bytes}
use rabbit_server.Vector.{Allocator}
use rabbit_server.Buffer.Contents.{IsValid}
use rabbit_server.Buffer.{readable_bytes}
use rabbit_server.Http.Response.{HttpResponse, new_response}
use rabbit_server.Http.Context.Message.{Message, complete_with}
use rabbit_server.Http.Server.{HttpCallback, wants_close}
use rabbit_server.Net.Channel.{enable_writing}
use rabbit_server.Net.Connection
use rabbit_server.Net.Connection.{
  TcpConnection, connected, Effect, queue_close, message_callback, updates, wrote, WriteOutcome,
  run, is_connected, step, sends, send_in_loop, keep_rest, handle_read,
}
use rabbit_server.Net.Connection.Interest.{IsWatched}

-- A connection that waits for a request, with all of its earlier responses sent.
pub record IsIdle (c : TcpConnection) : Type 0 where
  pub up : c.state ≡ connected
  pub watched : IsWatched c
  pub in_valid : IsValid c.in_buffer
  pub out_valid : IsValid c.out_buffer
  pub all_sent : readable_bytes c.out_buffer ≡ 0
  pub in_size : c.out_buffer.write_index ≤ c.out_buffer.buffer.size

-- How often the functor of `closeConnection` was queued.
abbrev pub closings : List Effect → ℕ
closings [] = 0
closings (queue_close ∷ es) = suc (closings es)
closings (_ ∷ es) = closings es

pub closings-append : (es fs : List Effect) → closings (es ++ fs) ≡ closings es + closings fs
closings-append [] fs = omega arith
closings-append (queue_close ∷ es) fs = omega (arith, closings-append es fs)
closings-append (wrote s ∷ es) fs = closings-append es fs
closings-append (_ ∷ es) fs = closings-append es fs

-- What the user's callback makes of a request.
abbrev pub response_to : HttpCallback → ℕ → Message → HttpResponse
response_to callback now m =
    let request = (complete_with now m).request in
    callback request (new_response (wants_close request))

-- A call of `send` leaves the state and the input alone.
pub record Sent (c : TcpConnection) (r : TcpConnection × List Effect) : Type 0 where
  pub same_state : r.0.state ≡ c.state
  pub same_input : r.0.in_buffer ≡ c.in_buffer
  pub same_output : r.0.channel.writing ≡ false → r.0.out_buffer ≡ c.out_buffer
  pub no_close : closings r.1 ≡ 0

pub send-Sent :
    (a : Allocator) (c : TcpConnection) (s : Bytes) (o : WriteOutcome)
    → Sent c (Connection.send a true c s o)
unfolding Connection.send send_in_loop keep_rest enable_writing
send-Sent a c s o = record {
  same_state = ground arith;
  same_input = ground arith;
  same_output = λ h. ground arith;
  no_close = ground arith;
}
