-- ===== src/Net/TcpServer/Names.antt =====
-- net/TcpServer.cpp: the names of connections are not used twice.
use rabbit_server.Prelude.{
  ℕ, ◌+◌, ◌^◌, ◌≤◌, ◌<◌, ◌≡◌, refl, ap, sym, ◌∙◌, Bool, true, false, inl, inr, Option, none, some,
  ◌∷◌, ◌++◌, arith, Bytes, equal, equal_iff, length, drop, take-length, drop-append_length, decimal,
  length-decimal, read_digits, read_digits-decimal, Result, ok, fault, assertion, Bool-cases,
  Option-cases, subst, if◌then◌else◌,
}
use rabbit_server.Dict.{insert, lookup, erase, lookup-insert, lookup-erase}
use rabbit_server.Net.EventLoopThreadPool.{EventLoopThreadPool, get_next_loop}
use rabbit_server.Net.TcpServer.{
  ConnectionPtr, TcpServer, new_server, connection_name, new_connection, erase_connection,
}

-- The number of connections that an `int` counts.
abbrev pub id_limit : ℕ
id_limit = 2 ^ 31

connection_name_whole :
    (name : Bytes) (i : ℕ) → i < id_limit → connection_name name i ≡ name ++ (b'#' ∷ decimal i)
connection_name_whole name i h =
    ap (◌++◌ name)
      (take-length (b'#' ∷ decimal i) 31 (omega (arith, length-decimal 9 i (omega arith))))

-- Two numbers give two names.
pub connection_name_differs :
    (name : Bytes) (i j : ℕ)
    → i < id_limit
    → j < id_limit
    → connection_name name i ≡ connection_name name j
    → i ≡ j
connection_name_differs name i j hi hj e =
    let same : b'#' ∷ decimal i ≡ b'#' ∷ decimal j =
      sym (drop-append_length name (b'#' ∷ decimal i))
      ∙ ap (drop (length name))
          (sym (connection_name_whole name i hi) ∙ e ∙ connection_name_whole name j hj)
      ∙ drop-append_length name (b'#' ∷ decimal j) in
    sym (read_digits-decimal i) ∙ ap (λ s. read_digits 0 (drop 1 s)) same ∙ read_digits-decimal j

-- The names from the next number on are free.
pub record IsFresh (s : TcpServer) : Type 0 where
  pub free :
      (i : ℕ)
      → s.next_connection_id ≤ i
      → i < id_limit
      → lookup (connection_name s.name i) s.connections ≡ none

pub IsFresh-new_server : (loop : ℕ) (name : Bytes) → IsFresh (new_server loop name)
unfolding lookup
IsFresh-new_server loop name = record { free = λ i h k. refl }

none_either : (b : Bool) {o : Option ConnectionPtr} → o ≡ none → (if b then none else o) ≡ none
none_either true e = refl
none_either false e = e

-- A lookup that a removal does not turn into a hit.
pub IsFresh-erase_connection :
    (conn : ConnectionPtr) (s s' : TcpServer)
    → IsFresh s
    → erase_connection conn s ≡ ok s'
    → IsFresh s'
unfolding erase_connection
IsFresh-erase_connection conn s s' f e = elim (Option-cases (lookup conn.name s.connections)) [
  | inl n ↦ let q : fault assertion ≡ ok s' = rw (n, erase_connection) at e in cc
  | inr (c, h) ↦
      let q : ok (record s { connections = erase conn.name s.connections }) ≡ ok s' =
        rw (h, erase_connection) at e in
      let same : record s { connections = erase conn.name s.connections } ≡ s' = cc in
      subst IsFresh same (record {
        free = λ i h k.
            lookup-erase conn.name (connection_name s.name i) s.connections
            ∙ none_either (equal conn.name (connection_name s.name i)) (f.free i h k);
      })
]

-- What `newConnetion` leads to.
pub record Accepted (pointer : ℕ) (s : TcpServer) (r : Result (TcpServer × ConnectionPtr))
    : Type 0 where
  pub server : TcpServer
  pub conn : ConnectionPtr
  pub result : r ≡ ok (server, conn)
  pub same_pointer : conn.pointer ≡ pointer
  pub not_used : lookup conn.name s.connections ≡ none
  pub entered :
      (name : Bytes)
      → lookup name server.connections
        ≡ (if equal conn.name name then some conn else lookup name s.connections)
  pub fresh : IsFresh server
  pub named : conn.name ≡ connection_name s.name s.next_connection_id
  pub same_name : server.name ≡ s.name
  pub counted : server.next_connection_id ≡ s.next_connection_id + 1
  pub next_loop : get_next_loop s.loops_thread_pool ≡ ok (conn.loop, server.loops_thread_pool)

names_apart :
    (name : Bytes) (i j : ℕ)
    → i < j
    → j < id_limit
    → equal (connection_name name i) (connection_name name j) ≡ false
names_apart name i j h k =
    elim (Bool-cases (equal (connection_name name i) (connection_name name j))) [
      | inl same ↦
          let e =
            connection_name_differs name i j (omega arith) k
              ((equal_iff (connection_name name i) (connection_name name j)).0 same) in
          absurd (omega (arith, e))
      | inr other ↦ other
    ]

-- If the names from the next number on are free, the number is below 2^31 and the pool gives a loop,
-- `newConnetion` enters the connection under a name that was not in use, every other name keeps its
-- entry, and the names from the new next number on are free again.
pub new_connection-Accepted :
    (pointer : ℕ) (s : TcpServer) (loop : ℕ) (pool : EventLoopThreadPool)
    → IsFresh s
    → s.next_connection_id < id_limit
    → get_next_loop s.loops_thread_pool ≡ ok (loop, pool)
    → Accepted pointer s (new_connection pointer s)
unfolding new_connection
new_connection-Accepted pointer s loop pool f h e =
    let name = connection_name s.name s.next_connection_id in
    let conn : ConnectionPtr = record { pointer = pointer; name = name; loop = loop } in
    record {
      server = record s {
        loops_thread_pool = pool;
        connections = insert name conn s.connections;
        next_connection_id = s.next_connection_id + 1;
      };
      conn = conn;
      result = rw e refl;
      same_pointer = refl;
      not_used = f.free s.next_connection_id (omega arith) h;
      entered = λ other. lookup-insert name other conn s.connections;
      fresh = record {
        free = λ i g k.
            lookup-insert name (connection_name s.name i) conn s.connections
            ∙ rw (names_apart s.name s.next_connection_id i (omega arith) k)
                (f.free i (omega arith) k);
      };
      named = refl;
      same_name = refl;
      counted = refl;
      next_loop = e;
    }
