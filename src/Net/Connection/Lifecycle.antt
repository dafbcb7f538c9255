-- ===== src/Net/Connection/Lifecycle.antt =====
-- net/TcpConnection.cpp: the states of a connection, and when it is closed.
use rabbit_server.Prelude.{
  ℕ, suc, ◌+◌, ◌≤◌, ◌<◌, ◌≡◌, ◌⊎◌, inl, inr, true, List, [], ◌∷◌, ◌++◌, arith, Bytes, Bool-cases,
}
use rabbit_server.Vector.{Allocator}
use rabbit_server.Buffer.{readable_bytes, retrieve, ReadOutcome, failed, received, read_fd}
use rabbit_server.Net.Connection.{
  State, disconnected, disconnecting, TcpConnection, Effect, updates, close_callback,
  remove_from_map, Handled, WriteOutcome, written, is_connected, handle_close, connection_destroyed,
  handle_hup, handle_read, close_connection, close_connection_in_loop, keep_rest, send_in_loop,
  send, drained, handle_write, Event, sends, runs_send, writable, readable, closes, runs_close,
  hangs_up, destroys, step, run,
}

-- How often the server is told that the connection is closed.
abbrev pub close_count : List Effect → ℕ
close_count [] = 0
close_count (close_callback ∷ es) = suc (close_count es)
close_count (_ ∷ es) = close_count es

-- 1 until the connection is closed.
abbrev pub open_count : State → ℕ
open_count disconnected = 0
open_count _ = 1

pub close_count-append :
    (es fs : List Effect) → close_count (es ++ fs) ≡ close_count es + close_count fs
close_count-append [] fs = omega arith
close_count-append (close_callback ∷ es) fs = omega (arith, close_count-append es fs)
close_count-append (updates ∷ es) fs = close_count-append es fs
close_count-append (_ ∷ es) fs = close_count-append es fs

-- A handler that tells the server exactly when it closes.
abbrev pub Balances : TcpConnection → Handled → Type 0
Balances c r = close_count r.1 + open_count r.0.state ≡ open_count c.state

-- A handler that tells the server at most when it closes.
abbrev pub Pays : TcpConnection → Handled → Type 0
Pays c r = close_count r.1 + open_count r.0.state ≤ open_count c.state

handle_close-Balances : (c : TcpConnection) → Balances c (handle_close c)
unfolding handle_close
handle_close-Balances c = ground arith

handle_read-Balances :
    (a : Allocator) (c : TcpConnection) (r : ReadOutcome) → Balances c (handle_read a c r)
unfolding handle_read
handle_read-Balances a c (failed e) = omega arith
handle_read-Balances a c (received []) =
    handle_close-Balances (record c { in_buffer = read_fd a c.in_buffer (received []) })
handle_read-Balances a c (received (x ∷ xs)) = omega arith

close_in_loop-Balances : (c : TcpConnection) → Balances c (close_connection_in_loop c)
unfolding close_connection_in_loop
close_in_loop-Balances c = ground arith

send_in_loop-Balances :
    (a : Allocator) (c : TcpConnection) (bytes : Bytes) (outcome : WriteOutcome)
    → Balances c (send_in_loop a c bytes outcome)
unfolding send_in_loop keep_rest
send_in_loop-Balances a c bytes outcome = ground arith

handle_write-Balances :
    (c : TcpConnection) (outcome : WriteOutcome) → Balances c (handle_write c outcome)
unfolding handle_write drained handle_close
handle_write-Balances c outcome = ground arith

-- Neither a hang-up nor the server's functor `connectionDestroyed`.
abbrev pub IsOrdinary : Event → Type 0
IsOrdinary hangs_up = ⊥
IsOrdinary destroys = ⊥
IsOrdinary _ = Unit {0}

pub step-Balances :
    (a : Allocator) (c : TcpConnection) (e : Event) → IsOrdinary e → Balances c (step a c e)
unfolding step send close_connection
step-Balances a c (sends bytes outcome) o = elim (Bool-cases (is_connected c.state)) [
  | inl up ↦ rw up (send_in_loop-Balances a c bytes outcome)
  | inr down ↦ rw down (omega arith)
]
step-Balances a c (runs_send bytes outcome) o = send_in_loop-Balances a c bytes outcome
step-Balances a c (writable outcome) o = handle_write-Balances c outcome
step-Balances a c (readable outcome) o = handle_read-Balances a c outcome
step-Balances a c closes o = ground arith
step-Balances a c runs_close o = close_in_loop-Balances c
step-Balances a c hangs_up o = absurd o
step-Balances a c destroys o = absurd o

pub destroyed-Pays : (c : TcpConnection) → Pays c (connection_destroyed c)
unfolding connection_destroyed
destroyed-Pays c = ground arith

handle_hup-Pays : (c : TcpConnection) → Pays c (handle_hup c)
unfolding handle_hup
handle_hup-Pays c =
    omega (
      arith,
      close_count-append (connection_destroyed c).1 (remove_from_map ∷ []),
      destroyed-Pays c,
    )

step-Pays : (a : Allocator) (c : TcpConnection) (e : Event) → Pays c (step a c e)
unfolding step
step-Pays a c hangs_up = handle_hup-Pays c
step-Pays a c destroys = destroyed-Pays c
step-Pays a c (sends bytes outcome) = omega (arith, step-Balances a c (sends bytes outcome) tt)
step-Pays a c (runs_send bytes outcome) =
    omega (arith, step-Balances a c (runs_send bytes outcome) tt)
step-Pays a c (writable outcome) = omega (arith, step-Balances a c (writable outcome) tt)
step-Pays a c (readable outcome) = omega (arith, step-Balances a c (readable outcome) tt)
step-Pays a c closes = omega (arith, step-Balances a c closes tt)
step-Pays a c runs_close = omega (arith, step-Balances a c runs_close tt)

-- In every history of a connection, the server's close callback is called at most once, it is not
-- called on a connection that is disconnected already, and after the call the connection stays
-- disconnected.
pub run_closes_once :
    (a : Allocator) (c : TcpConnection) (es : List Event)
    → close_count (run a c es).1 + open_count (run a c es).0.state ≤ open_count c.state
unfolding run
run_closes_once a c [] = omega arith
run_closes_once a c (e ∷ es) = omega (
  arith,
  step-Pays a c e,
  run_closes_once a (step a c e).0 es,
  close_count-append (step a c e).1 (run a (step a c e).0 es).1,
)

-- On a connection that waits to be closed and is writing, when the socket takes some of the waiting
-- bytes: if it took all, the connection is closed and the server is told once; if some are left, it
-- goes on waiting and the server is not told.
pub handle_write_disconnecting :
    (c : TcpConnection) (n : ℕ)
    → c.state ≡ disconnecting
    → c.channel.writing ≡ true
    → 0 < n
    → n ≤ readable_bytes c.out_buffer
    → ((n ≡ readable_bytes c.out_buffer)
        × ((handle_write c (written n)).0.state ≡ disconnected)
        × (close_count (handle_write c (written n)).1 ≡ 1))
      ⊎ ((n < readable_bytes c.out_buffer)
          × ((handle_write c (written n)).0.state ≡ disconnecting)
          × (close_count (handle_write c (written n)).1 ≡ 0))
unfolding handle_write drained handle_close retrieve
handle_write_disconnecting c n st w pos h = ground arith
