-- ===== src/Net/TcpServer/System/Updates.antt =====
-- net/TcpServer.cpp and net/TcpConnection.cpp: what a connection's effects do to the server's map.
use rabbit_server.Prelude.{
  ℕ, ◌≤◌, ◌<◌, ◌≡◌, ◌≢◌, ◌⊎◌, inl, inr, refl, ap, sym, ◌∙◌, false, none, some, [], ◌∷◌, arith,
  equal, equal_iff, Bool-cases, Result, ok, Bytes,
}
use rabbit_server.Dict.{lookup, erase, lookup-erase}
use rabbit_server.Vector.{Allocator}
use rabbit_server.Net.Connection
use rabbit_server.Net.Connection.{
  TcpConnection, State, disconnected, Effect, close_callback, wrote, Event, connection_establish,
  connection_destroyed,
}
use rabbit_server.Net.Connection.HangUp.{NoHangUp, step_without_hup}
use rabbit_server.Net.Connection.Lifecycle.{open_count, IsOrdinary, step-Balances}
use rabbit_server.Net.TcpServer.Names.{
  IsFresh, id_limit, connection_name_differs, IsFresh-erase_connection,
}
use rabbit_server.Net.TcpServer.Removal.{
  removals, removals-count, erased_absent, erase_connection_present, serve_present, serve_absent,
  after, after_absent,
}
use rabbit_server.Net.TcpServer.{ConnectionPtr, TcpServer, connection_name, serve}

-- What is known of a connection that was made as number `p`.
pub record IsListed (s : TcpServer) (p : ℕ) (conn : ConnectionPtr) (c : TcpConnection)
    : Type 0 where
  pub made : p < s.next_connection_id
  pub named : conn.name ≡ connection_name s.name p
  pub listed : open_count c.state ≡ 1 → lookup conn.name s.connections ≡ some conn
  pub unlisted : open_count c.state ≡ 0 → lookup conn.name s.connections ≡ none

open_count-cases : (st : State) → (open_count st ≡ 0) ⊎ (open_count st ≡ 1)
open_count-cases disconnected = inl refl
open_count-cases _ = inr refl

-- What a connection's effects leave of the server.
pub record IsUpdated (s : TcpServer) (conn : ConnectionPtr) (c' : TcpConnection)
    (r : Result TcpServer) : Type 0 where
  pub after : TcpServer
  pub returns : r ≡ ok after
  pub fresh : IsFresh after
  pub same_name : after.name ≡ s.name
  pub same_id : after.next_connection_id ≡ s.next_connection_id
  pub same_pool : after.loops_thread_pool ≡ s.loops_thread_pool
  pub listed : open_count c'.state ≡ 1 → lookup conn.name after.connections ≡ some conn
  pub unlisted : open_count c'.state ≡ 0 → lookup conn.name after.connections ≡ none
  pub others :
      (j : Bytes) → equal conn.name j ≡ false → lookup j after.connections ≡ lookup j s.connections

-- Nothing is removed.
kept-IsUpdated :
    (s : TcpServer) (p : ℕ) (conn : ConnectionPtr) (c c' : TcpConnection) (r : Result TcpServer)
    → IsFresh s
    → IsListed s p conn c
    → open_count c'.state ≡ open_count c.state
    → r ≡ ok s
    → IsUpdated s conn c' r
kept-IsUpdated s p conn c c' r f l same e = record {
  after = s;
  returns = e;
  fresh = f;
  same_name = refl;
  same_id = refl;
  same_pool = refl;
  listed = λ h. l.listed (sym same ∙ h);
  unlisted = λ h. l.unlisted (sym same ∙ h);
  others = λ j n. refl;
}

-- The connection's entry is removed.
erased-IsUpdated :
    (s : TcpServer) (conn : ConnectionPtr) (c' : TcpConnection) (r : Result TcpServer)
    → IsFresh s
    → lookup conn.name s.connections ≡ some conn
    → open_count c'.state ≡ 0
    → r ≡ ok (record s { connections = erase conn.name s.connections })
    → IsUpdated s conn c' r
erased-IsUpdated s conn c' r f there gone e = record {
  after = record s { connections = erase conn.name s.connections };
  returns = e;
  fresh =
      IsFresh-erase_connection conn s (record s { connections = erase conn.name s.connections }) f
        (erase_connection_present conn conn s there);
  same_name = refl;
  same_id = refl;
  same_pool = refl;
  listed = λ h. absurd (omega (arith, gone, h));
  unlisted = λ h. erased_absent conn s;
  others = λ j n. lookup-erase conn.name j s.connections ∙ rw n refl;
}

ordinary-NoHangUp : (e : Event) → IsOrdinary e → NoHangUp (e ∷ [])
ordinary-NoHangUp Connection.hangs_up o = absurd o
ordinary-NoHangUp Connection.destroys o = absurd o
ordinary-NoHangUp _ o = tt

pub serve-IsUpdated :
    (a : Allocator) (s : TcpServer) (p : ℕ) (conn : ConnectionPtr) (c : TcpConnection) (e : Event)
    → IsFresh s
    → IsListed s p conn c
    → IsOrdinary e
    → IsUpdated s conn (Connection.step a c e).0 (serve (Connection.step a c e).1 conn s)
serve-IsUpdated a s p conn c e f l o =
    let es = (Connection.step a c e).1 in
    let c' = (Connection.step a c e).0 in
    let balance = step-Balances a c e o in
    let count = removals-count es in
    let no_hup = step_without_hup a c e (ordinary-NoHangUp e o) in
    elim (open_count-cases c.state) [
      | inl shut ↦
          let none_removed : removals es ≡ 0 = omega (arith, balance, count, no_hup, shut) in
          kept-IsUpdated s p conn c c' (serve es conn s) f l (omega (arith, balance, shut))
            (serve_absent es conn s (l.unlisted shut) ∙ ap (λ n. after_absent n s) none_removed)
      | inr up ↦
          let there = l.listed up in
          let served = serve_present es conn conn s there in
          elim (open_count-cases c'.state) [
            | inl gone ↦ erased-IsUpdated s conn c' (serve es conn s) f there gone (
                served
                ∙ ap (λ n. after n conn s) {y = 1}
                    (omega (arith, balance, count, no_hup, up, gone)))
            | inr still ↦ kept-IsUpdated s p conn c c' (serve es conn s) f l (still ∙ sym up) (
                served
                ∙ ap (λ n. after n conn s) {y = 0}
                    (omega (arith, balance, count, no_hup, up, still)))
          ]
    ]

-- Two numbers, two names.
pub names_differ :
    (name : Bytes) (p q : ℕ) (x y : Bytes)
    → x ≡ connection_name name p
    → y ≡ connection_name name q
    → p < id_limit
    → q < id_limit
    → p ≢ q
    → equal x y ≡ false
names_differ name p q x y ex ey hp hq n = elim (Bool-cases (equal x y)) [
  | inr other ↦ other
  | inl same ↦
      absurd (n (connection_name_differs name p q hp hq (sym ex ∙ (equal_iff x y).0 same ∙ ey)))
]

-- Another connection keeps what is known of it.
pub IsListed-update :
    (s : TcpServer) (p q : ℕ) (conn conn' : ConnectionPtr) (c c' : TcpConnection)
    (r : Result TcpServer)
    → (u : IsUpdated s conn c' r) → s.next_connection_id ≤ id_limit
    → IsListed s p conn c
    → p ≢ q
    → (d : TcpConnection) → IsListed s q conn' d
    → IsListed u.after q conn' d
IsListed-update s p q conn conn' c c' r u limit l n d m =
    let apart =
      names_differ s.name p q conn.name conn'.name l.named m.named (omega (arith, l.made, limit))
        (omega (arith, m.made, limit)) n in
    record {
      made = omega (arith, u.same_id, m.made);
      named = m.named ∙ ap (λ x. connection_name x q) (sym u.same_name);
      listed = λ h. u.others conn'.name apart ∙ m.listed h;
      unlisted = λ h. u.others conn'.name apart ∙ m.unlisted h;
    }
