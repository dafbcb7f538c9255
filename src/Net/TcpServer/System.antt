-- ===== src/Net/TcpServer/System.antt =====
-- net/TcpServer.cpp and net/TcpConnection.cpp together: a server without further threads and all of its
-- connections, in the order of what the loop's thread does. A `ConnectionPtr` is numbered by its
-- connection's number.
pub mod Updates
pub mod Invariant
pub mod Kept
pub mod Registry
use rabbit_server.Prelude.{
  ℕ, ◌==◌, if◌then◌else◌, Option, none, some, List, [], ◌∷◌, ◌++◌, Result, ok, ◌>>=◌,
}
use rabbit_server.Vector.{Allocator}
use rabbit_server.Net.Connection
use rabbit_server.Net.Connection.{
  TcpConnection, Effect, close_callback, Event, connection_establish, connection_destroyed,
}
use rabbit_server.Net.TcpServer.{ConnectionPtr, TcpServer, new_connection, serve}

abbrev pub Objects : Type 0
Objects = ℕ → Option (ConnectionPtr × TcpConnection)

abbrev pub put : ℕ → ConnectionPtr × TcpConnection → Objects → Objects
put p x os q = if p == q then some x else os q

-- The server, the connections that were made, and the functors `connectionDestroyed` that wait in the loop.
pub record System : Type 0 where
  pub server : TcpServer
  pub objects : Objects
  pub functors : List ℕ

abbrev pub new_system : TcpServer → System
new_system server = record { server = server; objects = λ p. none; functors = [] }

-- A new descriptor from the acceptor, something that happens to a connection, and the next functor.
pub data Happening : Type 0 where
  accepts : ℕ → Happening
  happens : ℕ → Event → Happening
  runs_functor : Happening

-- The functors that `removeConnectionInLoop` queues.
abbrev pub functors_of : ℕ → List Effect → List ℕ
functors_of p [] = []
functors_of p (close_callback ∷ es) = p ∷ functors_of p es
functors_of p (_ ∷ es) = functors_of p es

-- `newConnetion`, with the object that it makes.
unfoldable pub accept : ℕ → System → Result System
accept fd s =
    let p = s.server.next_connection_id in
    new_connection p s.server >>= λ (server, conn). ok (record s {
      server = server;
      objects =
          put p (conn, (connection_establish (Connection.new_connection conn.name fd)).0) s.objects;
    })

-- What happens to a connection, and what its callbacks do to the server.
unfoldable pub happen :
    Allocator → ℕ → Event → ConnectionPtr × TcpConnection → System → Result System
happen a p e (conn, c) s =
    let r = Connection.step a c e in
    serve r.1 conn s.server >>= λ server. ok (record {
      server = server;
      objects = put p (conn, r.0) s.objects;
      functors = s.functors ++ functors_of p r.1;
    })

unfoldable pub run_destroy : ℕ → List ℕ → ConnectionPtr × TcpConnection → System → System
run_destroy p ps (conn, c) s = record s {
  objects = put p (conn, (connection_destroyed c).0) s.objects;
  functors = ps;
}

-- Nothing happens to a connection that was not made.
abbrev pub or_else :
    Result System
    → Option (ConnectionPtr × TcpConnection)
    → (ConnectionPtr × TcpConnection → Result System)
    → Result System
or_else r none f = r
or_else r (some x) f = f x

abbrev run_first : List ℕ → System → Result System
run_first [] s = ok s
run_first (p ∷ ps) s = or_else (ok s) (s.objects p) (λ x. ok (run_destroy p ps x s))

unfoldable pub step : Allocator → Happening → System → Result System
unfolding accept happen run_destroy
step a (accepts fd) s = accept fd s
step a (happens p e) s = or_else (ok s) (s.objects p) (λ x. happen a p e x s)
step a runs_functor s = run_first s.functors s

unfoldable pub run : Allocator → List Happening → System → Result System
unfolding step
run a [] s = ok s
run a (h ∷ hs) s = step a h s >>= run a hs
