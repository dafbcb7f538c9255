-- ===== src/Net/Connection/HangUp.antt =====
-- net/TcpConnection.cpp: without a hang-up, no handler asks for the removal from the server's map.
use rabbit_server.Prelude.{ℕ, suc, ◌+◌, ◌≡◌, refl, List, [], ◌∷◌, ◌++◌, arith}
use rabbit_server.Vector.{Allocator}
use rabbit_server.Buffer.{received, failed}
use rabbit_server.Net.Connection.{
  TcpConnection, Effect, wrote, remove_from_map, Event, sends, runs_send, writable, readable,
  closes, runs_close, hangs_up, destroys, step, run, send, send_in_loop, keep_rest, handle_write,
  drained, handle_close, handle_read, close_connection, close_connection_in_loop,
  connection_destroyed,
}

-- How often a hang-up asks for the removal.
abbrev pub hup_count : List Effect → ℕ
hup_count [] = 0
hup_count (remove_from_map ∷ es) = suc (hup_count es)
hup_count (_ ∷ es) = hup_count es

hup_count-append : (es fs : List Effect) → hup_count (es ++ fs) ≡ hup_count es + hup_count fs
hup_count-append [] fs = omega arith
hup_count-append (remove_from_map ∷ es) fs = omega (arith, hup_count-append es fs)
hup_count-append (wrote b ∷ es) fs = hup_count-append es fs
hup_count-append (_ ∷ es) fs = hup_count-append es fs

-- No event of the history is a hang-up.
abbrev pub NoHangUp : List Event → Type 0
NoHangUp [] = Unit {0}
NoHangUp (hangs_up ∷ es) = ⊥
NoHangUp (_ ∷ es) = NoHangUp es

module _ (a : Allocator) where
  pub step_without_hup :
      (c : TcpConnection) (e : Event) → NoHangUp (e ∷ []) → hup_count (step a c e).1 ≡ 0
  unfolding step send send_in_loop keep_rest handle_write drained handle_close handle_read
      close_connection close_connection_in_loop connection_destroyed
  step_without_hup c (sends bytes outcome) h = ground arith
  step_without_hup c (runs_send bytes outcome) h = ground arith
  step_without_hup c (writable outcome) h = ground arith
  step_without_hup c (readable (failed e)) h = refl
  step_without_hup c (readable (received [])) h = ground arith
  step_without_hup c (readable (received (x ∷ xs))) h = refl
  step_without_hup c closes h = ground arith
  step_without_hup c runs_close h = ground arith
  step_without_hup c hangs_up h = absurd h
  step_without_hup c destroys h = ground arith

  NoHangUp-cons :
      (e : Event) (es : List Event) → NoHangUp (e ∷ es) → NoHangUp (e ∷ []) × NoHangUp es
  NoHangUp-cons hangs_up es h = absurd h
  NoHangUp-cons (sends bytes outcome) es h = (tt, h)
  NoHangUp-cons _ es h = (tt, h)

  pub run_without_hup :
      (c : TcpConnection) (es : List Event) → NoHangUp es → hup_count (run a c es).1 ≡ 0
  unfolding run
  run_without_hup c [] h = refl
  run_without_hup c (e ∷ es) h =
      let (h0, hs) = NoHangUp-cons e es h in
      omega (
        arith,
        step_without_hup c e h0,
        run_without_hup (step a c e).0 es hs,
        hup_count-append (step a c e).1 (run a (step a c e).0 es).1,
      )
