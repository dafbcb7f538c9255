-- ===== src/Http/Connection.antt =====
-- HTTP/HttpServer.cpp and net/TcpConnection.cpp together: the callbacks that the constructor of
-- HttpServer sets, on a connection with its `context_`. They run in the thread of the connection's loop.
-- `outcomes` says what each `write` of a handler reports, in order.
pub mod Sent
pub mod Served
pub mod Sending
pub mod KeepAlive
use rabbit_server.Prelude.{
  ℕ, suc, true, Option, none, some, List, [], ◌∷◌, ◌++◌, Result, ok, fault, dangling, ◌>>=◌,
}
use rabbit_server.Vector.{Allocator}
use rabbit_server.Buffer.{ReadOutcome, failed, received}
use rabbit_server.Http.Context.{HttpContext}
use rabbit_server.Http.Server.{
  HttpCallback, Action, send, close_connection, on_connection, on_message,
}
use rabbit_server.Net.Connection
use rabbit_server.Net.Connection.{
  TcpConnection, Effect, Handled, WriteOutcome, is_connected, then_do, connection_establish,
  handle_read,
}

pub record HttpConnection : Type 0 where
  pub context : Option HttpContext
  pub connection : TcpConnection

-- A call that `onMessage` makes on its connection.
unfoldable pub carry_out : Allocator → Action → TcpConnection → WriteOutcome → Handled
carry_out a (send bytes) c outcome = Connection.send a true c bytes outcome
carry_out a close_connection c outcome = Connection.close_connection c

unfoldable pub carry_out_all :
    Allocator → (ℕ → WriteOutcome) → List Action → TcpConnection → Handled
unfolding carry_out
carry_out_all a outcomes [] c = (c, [])
carry_out_all a outcomes (x ∷ xs) c =
    then_do (carry_out a x c (outcomes 0)) (carry_out_all a (λ n. outcomes (suc n)) xs)

-- `connectionEstablish`, whose callback is `onConnection`.
unfoldable pub establish : HttpConnection → HttpConnection × List Effect
establish h =
    let (c, es) = connection_establish h.connection in
    (record { context = on_connection (is_connected c.state) h.context; connection = c }, es)

module _ (a : Allocator) (callback : HttpCallback) (now : ℕ) (outcomes : ℕ → WriteOutcome) where
  -- `onMessage` on the input buffer, with its calls carried out; `any_cast` gives no context if none
  -- was set.
  unfoldable pub respond : HttpConnection → Result (HttpConnection × List Effect)
  unfolding carry_out_all
  respond h = elim h.context [
    | none ↦ fault dangling
    | some context ↦
        on_message a callback now context h.connection.in_buffer >>= λ (context', left, actions).
        let (c, es) = carry_out_all a outcomes actions (record h.connection { in_buffer = left }) in
        ok (record { context = some context'; connection = c }, es)
  ]

  -- `handleRead`, whose callback is `onMessage`.
  unfoldable pub handle_readable :
      HttpConnection → ReadOutcome → Result (HttpConnection × List Effect)
  unfolding respond
  handle_readable h (received (x ∷ xs)) =
      let (c, es) = handle_read a h.connection (received (x ∷ xs)) in
      respond (record h { connection = c }) >>= λ (h', more). ok (h', es ++ more)
  handle_readable h outcome =
      let (c, es) = handle_read a h.connection outcome in ok (record h { connection = c }, es)
