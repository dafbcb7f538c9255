-- ===== src/Net/TcpServer/Removal.antt =====
-- net/TcpServer.cpp and net/TcpConnection.cpp: how often a connection leaves the server's map.
use rabbit_server.Prelude.{
  ℕ, zero, suc, ◌+◌, ◌≤◌, ◌≡◌, refl, ◌∙◌, ◌⊎◌, inl, inr, none, some, List, [], ◌∷◌, arith,
  equal_refl, Result, ok, fault, assertion,
}
use rabbit_server.Dict.{lookup, erase, lookup-erase}
use rabbit_server.Vector.{Allocator}
use rabbit_server.Buffer.{received}
use rabbit_server.Net.Connection.HangUp.{hup_count, NoHangUp, run_without_hup}
use rabbit_server.Net.Connection.Lifecycle.{close_count, open_count, run_closes_once}
use rabbit_server.Net.Connection.{
  TcpConnection, connected, Effect, wrote, close_callback, remove_from_map, Event, readable,
  hangs_up, step, run, State, connecting, disconnected, handle_close, handle_read,
  connection_destroyed, handle_hup,
}
use rabbit_server.Net.TcpServer.{
  ConnectionPtr, TcpServer, erase_connection, remove_connection_in_loop,
  remove_connection_from_map_in_loop, serve,
}

-- The effects that take the connection out of the map.
abbrev pub removals : List Effect → ℕ
removals [] = 0
removals (close_callback ∷ es) = suc (removals es)
removals (remove_from_map ∷ es) = suc (removals es)
removals (_ ∷ es) = removals es

-- What so many removals lead to.
abbrev pub after : ℕ → ConnectionPtr → TcpServer → Result TcpServer
after zero conn s = ok s
after (suc zero) conn s = ok (record s { connections = erase conn.name s.connections })
after (suc (suc n)) conn s = fault assertion

pub open_count-le : (st : State) → open_count st ≤ 1
open_count-le connecting = omega arith
open_count-le disconnected = omega arith
open_count-le _ = omega arith

erase_connection_absent :
    (conn : ConnectionPtr) (s : TcpServer)
    → lookup conn.name s.connections ≡ none
    → erase_connection conn s ≡ fault assertion
unfolding erase_connection
erase_connection_absent conn s h = rw (h, erase_connection)

pub erase_connection_present :
    (conn c : ConnectionPtr) (s : TcpServer)
    → lookup conn.name s.connections ≡ some c
    → erase_connection conn s ≡ ok (record s { connections = erase conn.name s.connections })
unfolding erase_connection
erase_connection_present conn c s h = rw (h, erase_connection)

pub erased_absent :
    (conn : ConnectionPtr) (s : TcpServer) → lookup conn.name (erase conn.name s.connections) ≡ none
erased_absent conn s =
    lookup-erase conn.name conn.name s.connections ∙ rw (equal_refl conn.name) refl

abbrev pub after_absent : ℕ → TcpServer → Result TcpServer
after_absent zero s = ok s
after_absent (suc n) s = fault assertion

pub serve_absent :
    (es : List Effect) (conn : ConnectionPtr) (s : TcpServer)
    → lookup conn.name s.connections ≡ none
    → serve es conn s ≡ after_absent (removals es) s
unfolding serve remove_connection_in_loop remove_connection_from_map_in_loop
serve_absent [] conn s h = refl
serve_absent (close_callback ∷ es) conn s h = rw (erase_connection_absent conn s h) refl
serve_absent (remove_from_map ∷ es) conn s h = rw (erase_connection_absent conn s h) refl
serve_absent (wrote b ∷ es) conn s h = serve_absent es conn s h
serve_absent (_ ∷ es) conn s h = serve_absent es conn s h

after_suc :
    (n : ℕ) (conn : ConnectionPtr) (s : TcpServer)
    → after_absent n (record s { connections = erase conn.name s.connections })
      ≡ after (suc n) conn s
after_suc zero conn s = refl
after_suc (suc n) conn s = refl

pub serve_present :
    (es : List Effect) (conn c : ConnectionPtr) (s : TcpServer)
    → lookup conn.name s.connections ≡ some c
    → serve es conn s ≡ after (removals es) conn s
unfolding serve remove_connection_in_loop remove_connection_from_map_in_loop
serve_present [] conn c s h = refl
serve_present (close_callback ∷ es) conn c s h = rw (erase_connection_present conn c s h) (
    serve_absent es conn (record s { connections = erase conn.name s.connections })
      (erased_absent conn s)
    ∙ after_suc (removals es) conn s)
serve_present (remove_from_map ∷ es) conn c s h = rw (erase_connection_present conn c s h) (
    serve_absent es conn (record s { connections = erase conn.name s.connections })
      (erased_absent conn s)
    ∙ after_suc (removals es) conn s)
serve_present (wrote b ∷ es) conn c s h = serve_present es conn c s h
serve_present (_ ∷ es) conn c s h = serve_present es conn c s h

pub removals-count : (es : List Effect) → removals es ≡ close_count es + hup_count es
removals-count [] = omega arith
removals-count (close_callback ∷ es) = omega (arith, removals-count es)
removals-count (remove_from_map ∷ es) = omega (arith, removals-count es)
removals-count (wrote b ∷ es) = removals-count es
removals-count (_ ∷ es) = removals-count es

module _ (a : Allocator) where
  after_once :
      (n : ℕ) (conn : ConnectionPtr) (s : TcpServer)
      → n ≤ 1
      → (after n conn s ≡ ok s)
        ⊎ (after n conn s ≡ ok (record s { connections = erase conn.name s.connections }))
  after_once zero conn s h = inl refl
  after_once (suc zero) conn s h = inr refl
  after_once (suc (suc n)) conn s h = absurd (omega arith)

  -- A history of a connection without a hang-up, served by a server whose map has the connection,
  -- never fails the assertion of the removal: the map stays as it is, or loses this connection's
  -- entry once.
  pub serve-run :
      (c : TcpConnection) (es : List Event) (conn entry : ConnectionPtr) (s : TcpServer)
      → NoHangUp es
      → lookup conn.name s.connections ≡ some entry
      → (serve (run a c es).1 conn s ≡ ok s)
        ⊎ (serve (run a c es).1 conn s
            ≡ ok (record s { connections = erase conn.name s.connections }))
  serve-run c es conn entry s h e =
      let n = removals (run a c es).1 in
      rw (serve_present (run a c es).1 conn entry s e) (
        after_once n conn s (
          omega (
            arith,
            removals-count (run a c es).1,
            run_without_hup a c es h,
            run_closes_once a c es,
            open_count-le c.state,
          )))

  -- If the peer of an established connection ends its stream and a hang-up is reported before the
  -- channel is removed, the connection is taken out of the server's map twice, and the assertion of
  -- the second removal fails.
  pub serve-run_close_hup :
      (c : TcpConnection) (conn entry : ConnectionPtr) (s : TcpServer)
      → c.state ≡ connected
      → lookup conn.name s.connections ≡ some entry
      → serve (run a c (readable (received []) ∷ hangs_up ∷ [])).1 conn s ≡ fault assertion
  unfolding run step handle_read handle_close handle_hup connection_destroyed
  serve-run_close_hup c conn entry s st e =
      serve_present (run a c (readable (received []) ∷ hangs_up ∷ [])).1 conn entry s e ∙ rw st refl
