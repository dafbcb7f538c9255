-- ===== src/Net/TcpServer/System/Registry.antt =====
-- net/TcpServer.cpp and net/TcpConnection.cpp: the server's map has exactly the open connections.
use rabbit_server.Prelude.{
  ℕ, suc, ◌+◌, ◌≤◌, ◌<◌, ◌≡◌, ◌≢◌, ◌↔◌, inl, inr, refl, ap, sym, ◌∙◌, true, Option, none, some,
  List, [], ◌∷◌, arith, Bytes, Result, ok, ◌>>=◌, Option-cases,
}
use rabbit_server.Dict.{lookup}
use rabbit_server.Vector.{Allocator}
use rabbit_server.Net.Connection
use rabbit_server.Net.Connection.{TcpConnection, State, disconnected}
use rabbit_server.Net.Connection.Lifecycle.{open_count, IsOrdinary}
use rabbit_server.Net.EventLoopThreadPool
use rabbit_server.Net.TcpServer.Names.{IsFresh-new_server, id_limit}
use rabbit_server.Net.TcpServer.System.Invariant.{IsKept}
use rabbit_server.Net.TcpServer.System.Kept.{happen-IsKept, accept-IsKept, run_functor-IsKept}
use rabbit_server.Net.TcpServer.System.{
  System, new_system, Happening, accepts, happens, runs_functor, happen, step, run, or_else,
}
use rabbit_server.Net.TcpServer.{ConnectionPtr, TcpServer, new_server, start, connection_name}

-- No hang-up is reported, and `connectionDestroyed` is called by its functor only.
abbrev pub AreOrdinary : List Happening → Type 0
AreOrdinary [] = Unit {0}
AreOrdinary (happens p e ∷ hs) = IsOrdinary e × AreOrdinary hs
AreOrdinary (accepts fd ∷ hs) = AreOrdinary hs
AreOrdinary (runs_functor ∷ hs) = AreOrdinary hs

abbrev pub accept_count : List Happening → ℕ
accept_count [] = 0
accept_count (accepts fd ∷ hs) = suc (accept_count hs)
accept_count (happens p e ∷ hs) = accept_count hs
accept_count (runs_functor ∷ hs) = accept_count hs

happens-IsKept :
    {name : Bytes} (a : Allocator) (s : System) (p : ℕ) (e : Connection.Event)
    → IsKept name s
    → IsOrdinary e
    → (s' : System) × (step a (happens p e) s ≡ ok s')
      × IsKept name s'
      × (s'.server.next_connection_id ≡ s.server.next_connection_id)
unfolding step
happens-IsKept a s p e k o = elim (Option-cases (s.objects p)) [
  | inl none_there ↦ (s, ap (λ x. or_else (ok s) x (λ y. happen a p e y s)) none_there, k, refl)
  | inr ((conn, c), there) ↦
      let (s', returns, k', same) = happen-IsKept a s p conn c e k there o in
      (s', ap (λ x. or_else (ok s) x (λ y. happen a p e y s)) there ∙ returns, k', same)
]

module _ (a : Allocator) where
  run-IsKept :
      {name : Bytes} (hs : List Happening) (s : System)
      → IsKept name s
      → AreOrdinary hs
      → s.server.next_connection_id + accept_count hs ≤ id_limit
      → (s' : System) × (run a hs s ≡ ok s')
        × IsKept name s'
        × (s'.server.next_connection_id ≡ s.server.next_connection_id + accept_count hs)
  unfolding run step
  run-IsKept [] s k o h = (s, refl, k, omega arith)
  run-IsKept (accepts fd ∷ hs) s k o h =
      let (s1, e1, k1, n1) = accept-IsKept fd s k (omega arith) in
      let (s2, e2, k2, n2) = run-IsKept hs s1 k1 o (omega (arith, n1)) in
      (s2, ap (λ r. r >>= run a hs) e1 ∙ e2, k2, omega (arith, n1, n2))
  run-IsKept (happens p e ∷ hs) s k o h =
      let (s1, e1, k1, n1) = happens-IsKept a s p e k o.0 in
      let (s2, e2, k2, n2) = run-IsKept hs s1 k1 o.1 (omega (arith, n1)) in
      (s2, ap (λ r. r >>= run a hs) e1 ∙ e2, k2, omega (arith, n1, n2))
  run-IsKept (runs_functor ∷ hs) s k o h =
      let (s1, e1, k1, n1) = run_functor-IsKept a s s.functors k refl in
      let (s2, e2, k2, n2) = run-IsKept hs s1 k1 o (omega (arith, n1)) in
      (s2, ap (λ r. r >>= run a hs) e1 ∙ e2, k2, omega (arith, n1, n2))

-- What a run of the server leads to.
pub record Registered (name : Bytes) (made : ℕ) (r : Result System) : Type 0 where
  pub system : System
  pub returns : r ≡ ok system
  pub all_made :
      (p : ℕ) → p < made → (x : ConnectionPtr × TcpConnection) × (system.objects p ≡ some x)
  pub named :
      (p : ℕ) (conn : ConnectionPtr) (c : TcpConnection)
      → system.objects p ≡ some (conn, c)
      → conn.name ≡ connection_name name p
  pub listed :
      (p : ℕ) (conn : ConnectionPtr) (c : TcpConnection)
      → system.objects p ≡ some (conn, c)
      → (lookup conn.name system.server.connections ≡ some conn) ↔ (c.state ≢ disconnected)

open-listed :
    (st : State) (conn : ConnectionPtr) (o : Option ConnectionPtr)
    → (open_count st ≡ 1 → o ≡ some conn)
    → (open_count st ≡ 0 → o ≡ none)
    → (o ≡ some conn) ↔ (st ≢ disconnected)
open-listed disconnected conn o l u =
    (λ e. let clash : some conn ≡ none = sym e ∙ u refl in cc, λ n. absurd (n refl))
open-listed Connection.connecting conn o l u = (λ e q. cc, λ n. l refl)
open-listed Connection.connected conn o l u = (λ e q. cc, λ n. l refl)
open-listed Connection.disconnecting conn o l u = (λ e q. cc, λ n. l refl)

-- A server without further threads and all of its connections: for every sequence of accepted
-- descriptors, below 2^31 of them, of events on the connections without a hang-up, and of runs of
-- the queued functors, no assertion fails and the run returns; every accepted connection is there
-- under the server's name with its own number behind it, and the server's map leads from its name to
-- it exactly if it is not disconnected.
pub run-Registered :
    (a : Allocator) (start_loop : ℕ → ℕ) (loop : ℕ) (name : Bytes) (hs : List Happening)
    → AreOrdinary hs
    → accept_count hs ≤ id_limit
    → Registered name
        (accept_count hs)
        (start start_loop (new_server loop name) >>= λ server. run a hs (new_system server))
unfolding start EventLoopThreadPool.start
run-Registered a f loop name hs o h =
    let server : TcpServer = record (new_server loop name) {
      loops_thread_pool = record (EventLoopThreadPool.new_pool loop) { started = true };
    } in
    let k : IsKept name (new_system server) = record {
      same_name = refl;
      fresh = record { free = (IsFresh-new_server loop name).free };
      ready = record { up = refl; in_range = inl refl };
      in_limit = omega arith;
      entries = λ p conn c e. cc;
      closed = tt;
      there = λ p z. absurd (omega arith);
    } in
    let (s, returns, k', count) = run-IsKept a hs (new_system server) k o (omega arith) in
    record {
      system = s;
      returns = returns;
      all_made = λ p z. k'.there p (omega (arith, z, count));
      named =
          λ p conn c e. (k'.entries p conn c e).named ∙ ap (λ x. connection_name x p) k'.same_name;
      listed = λ p conn c e.
          let l = k'.entries p conn c e in open-listed c.state conn _ l.listed l.unlisted;
    }
