-- ===== src/Net/Tests/Server.antt =====
-- A server with two connections, one of which its peer ends, and the theorem on net/TcpServer.cpp with
-- net/TcpConnection.cpp applied to it.
use rabbit_server.Prelude.{List, [], ◌∷◌, codes, arith, ◌>>=◌}
use rabbit_server.Vector.{doubling}
use rabbit_server.Buffer.{received}
use rabbit_server.Net.Connection.{readable}
use rabbit_server.Net.TcpServer.{new_server, start}
use rabbit_server.Net.TcpServer.System.{Happening, accepts, happens, runs_functor, new_system, run}
use rabbit_server.Net.TcpServer.System.Registry.{Registered, run-Registered}

abbrev two_clients : List Happening
two_clients = accepts 5 ∷ accepts 6 ∷ happens 0 (readable (received [])) ∷ runs_functor ∷ []

run-Registered_example : Registered (codes "Tcp") 2 (
    start (λ n. n) (new_server 9 (codes "Tcp")) >>= λ server.
    run doubling two_clients (new_system server))
run-Registered_example =
    run-Registered doubling (λ n. n) 9 (codes "Tcp") two_clients (tt, tt) (omega arith)
