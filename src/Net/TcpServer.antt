-- ===== src/Net/TcpServer.antt =====
-- net/TcpServer.h and net/TcpServer.cpp. A connection pointer carries its name and its loop, which do
-- not change. All functions run in the thread of the base loop, where `RunInLoop` calls at once and
-- `QueueInLoop` in order. Addresses and printing are left out.
pub mod Names
pub mod Removal
pub mod System
use rabbit_server.Prelude.{
  ℕ, ◌+◌, Option, none, some, List, [], ◌∷◌, ◌++◌, Bytes, take, decimal, Result, ok, fault,
  assertion, ◌>>=◌,
}
use rabbit_server.Dict.{Dict, insert, lookup, erase}
use rabbit_server.Net.Connection.{Effect, close_callback, remove_from_map}
use rabbit_server.Net.EventLoopThreadPool
use rabbit_server.Net.EventLoopThreadPool.{
  EventLoopThreadPool, new_pool, set_thread_num, get_next_loop,
}

pub record ConnectionPtr : Type 0 where
  pub pointer : ℕ
  pub name : Bytes
  pub loop : ℕ

pub record TcpServer : Type 0 where
  pub name : Bytes
  pub loops_thread_pool : EventLoopThreadPool
  pub connections : Dict ConnectionPtr
  pub next_connection_id : ℕ

-- The constructor, on a base loop.
abbrev pub new_server : ℕ → Bytes → TcpServer
new_server loop name = record {
  name = name;
  loops_thread_pool = new_pool loop;
  connections = [];
  next_connection_id = 0;
}

-- `setThreadNum`.
unfoldable pub set_threads : ℕ → TcpServer → TcpServer
set_threads n s = record s { loops_thread_pool = set_thread_num n s.loops_thread_pool }

-- `start`, behind the registration of the acceptor.
unfoldable pub start : (ℕ → ℕ) → TcpServer → Result TcpServer
start start_loop s = EventLoopThreadPool.start start_loop s.loops_thread_pool >>= λ pool.
    ok (record s { loops_thread_pool = pool })

-- `snprintf(buf, 32, "#%d", nextConnectionId_)`, behind the server's name.
abbrev pub connection_name : Bytes → ℕ → Bytes
connection_name name id = name ++ take 31 (b'#' ∷ decimal id)

-- `newConnetion`, for the object that it makes: the server, and the connection to establish.
unfoldable pub new_connection : ℕ → TcpServer → Result (TcpServer × ConnectionPtr)
new_connection pointer s = get_next_loop s.loops_thread_pool >>= λ (loop, pool).
    let conn : ConnectionPtr = record {
      pointer = pointer;
      name = connection_name s.name s.next_connection_id;
      loop = loop;
    } in
    ok (
      record s {
        loops_thread_pool = pool;
        connections = insert conn.name conn s.connections;
        next_connection_id = s.next_connection_id + 1;
      },
      conn,
    )

-- `assert(it != connections_.end())`, and `erase`.
unfoldable pub erase_connection : ConnectionPtr → TcpServer → Result TcpServer
erase_connection conn s = elim (lookup conn.name s.connections) [
  | none ↦ fault assertion
  | some c ↦ ok (record s { connections = erase conn.name s.connections })
]

-- `removeConnectionInLoop`: the server, and the loop and the connection of the functor
-- `connectionDestroyed` that it queues.
unfoldable pub remove_connection_in_loop :
    ConnectionPtr → TcpServer → Result (TcpServer × ℕ × ConnectionPtr)
unfolding erase_connection
remove_connection_in_loop conn s = erase_connection conn s >>= λ s'. ok (s', conn.loop, conn)

-- `removeConnectionFromMapInLoop`.
unfoldable pub remove_connection_from_map_in_loop : ConnectionPtr → TcpServer → Result TcpServer
unfolding erase_connection
remove_connection_from_map_in_loop conn s = erase_connection conn s

-- What the effects of a connection's handlers do to the server, in order.
unfoldable pub serve : List Effect → ConnectionPtr → TcpServer → Result TcpServer
unfolding remove_connection_in_loop remove_connection_from_map_in_loop
serve [] conn s = ok s
serve (close_callback ∷ es) conn s =
    remove_connection_in_loop conn s >>= λ (s', loop, c). serve es conn s'
serve (remove_from_map ∷ es) conn s = remove_connection_from_map_in_loop conn s >>= serve es conn
serve (_ ∷ es) conn s = serve es conn s
