-- ===== src/Net/EventLoop/Wakeup.antt =====
-- net/EventLoop.cpp: no functor and no stop waits behind a blocked loop.
use rabbit_server.Prelude.{
  ℕ, ◌+◌, ◌<◌, ◌≡◌, ◌≢◌, ◌⊎◌, inl, inr, refl, ◌∙◌, true, false, List, [], ◌∷◌, ◌++◌, arith,
  Bool-cases,
}
use rabbit_server.Net.EventLoop.{
  Phase, polling, handling, flagged, running, stopped, EventLoop, queue_in_loop, stop, Request,
  queues, stops, perform, perform_all, run_functor, end_pending, Step, poll_returns, reads,
  handler_calls, begins, swaps, runs, ends, other_pushes, other_stops, other_wakes, Reachable,
  start, step,
}

-- A wakeup has been written, or a thread is about to write one.
abbrev pub signals : EventLoop → ℕ
signals l = l.wakeups + l.in_flight

-- The functors that wait have a wakeup.
abbrev IsSignalled : EventLoop → Type 0
IsSignalled l = (l.pending_functors ≡ []) ⊎ (0 < signals l)

abbrev IsSettled : Phase → EventLoop → Type 0
IsSettled polling l =
    IsSignalled l × ((l.quit ≡ false) ⊎ (0 < signals l)) × (l.calling_pending_functors ≡ false)
IsSettled handling l = l.calling_pending_functors ≡ false
IsSettled flagged l = l.calling_pending_functors ≡ true
IsSettled (running fs) l = IsSignalled l × (l.calling_pending_functors ≡ true)
IsSettled stopped l = Unit {0}

-- A request from the loop's thread while it calls functors.
perform-running :
    (r : Request) (fs : List ℕ) (l : EventLoop)
    → l.phase ≡ running fs
    → IsSettled (running fs) l
    → ((perform r l).phase ≡ running fs) × IsSettled (running fs) (perform r l)
unfolding perform queue_in_loop stop
perform-running (queues f) fs l e s = rw s.1 (e, (inr (omega arith), refl))
perform-running stops fs l e s = (e, s)

perform_all-running :
    (rs : List Request) (fs : List ℕ) (l : EventLoop)
    → l.phase ≡ running fs
    → IsSettled (running fs) l
    → ((perform_all rs l).phase ≡ running fs) × IsSettled (running fs) (perform_all rs l)
unfolding perform_all
perform_all-running [] fs l e s = (e, s)
perform_all-running (r ∷ rs) fs l e s =
    let h = perform-running r fs l e s in perform_all-running rs fs (perform r l) h.0 h.1

-- In a handler.
perform-handling :
    (r : Request) (l : EventLoop)
    → l.phase ≡ handling
    → IsSettled handling l
    → ((perform r l).phase ≡ handling) × IsSettled handling (perform r l)
unfolding perform queue_in_loop stop
perform-handling (queues f) l e s = rw s (e, refl)
perform-handling stops l e s = (e, s)

-- Other threads signal each of their changes.
other_change :
    (ph : Phase) (l l' : EventLoop)
    → l'.calling_pending_functors ≡ l.calling_pending_functors
    → 0 < signals l'
    → IsSettled ph l
    → IsSettled ph l'
other_change polling l l' c w s = (inr w, inr w, c ∙ s.2)
other_change handling l l' c w s = c ∙ s
other_change flagged l l' c w s = c ∙ s
other_change (running fs) l l' c w s = (inr w, c ∙ s.1)
other_change stopped l l' c w s = tt

module _ (body : ℕ → List Request) where
  Step-IsSettled : {l l' : EventLoop} → Step body l l' → IsSettled l.phase l → IsSettled l'.phase l'
  unfolding run_functor end_pending
  Step-IsSettled (poll_returns e) s = (rw e at s).2
  Step-IsSettled (reads e w) s = rw e (rw e at s)
  Step-IsSettled {l} (handler_calls r e) s =
      let h = perform-handling r l e (rw e at s) in rw h.0 h.1
  Step-IsSettled (begins e) s = refl
  Step-IsSettled (swaps e) s = (inl refl, rw e at s)
  Step-IsSettled {l} (runs f fs e) s =
      let h =
        perform_all-running (body f) fs (record l { phase = running fs; ran = l.ran ++ f ∷ [] })
          refl (rw e at s) in
      rw h.0 h.1
  Step-IsSettled {l} (ends e) s = elim (Bool-cases l.quit) [
    | inl q ↦ rw q tt
    | inr q ↦ rw q ((rw e at s).0, inl refl, refl)
  ]
  Step-IsSettled {l} (other_pushes f) s = other_change l.phase l _ refl (omega arith) s
  Step-IsSettled {l} other_stops s = other_change l.phase l _ refl (omega arith) s
  Step-IsSettled {l} (other_wakes h) s = other_change l.phase l _ refl (omega arith) s

  Reachable-IsSettled : (l : EventLoop) → Reachable body l → IsSettled l.phase l
  Reachable-IsSettled _ start = (inl refl, inl refl, refl)
  Reachable-IsSettled _ (step {l} r st) = Step-IsSettled st (Reachable-IsSettled l r)

  -- No wakeup is lost: in every state that the loop's thread and other threads can reach, whatever
  -- the functors ask for, if the loop is blocked in `Poll` and functors wait or `quit_` is set, then
  -- a wakeup has been written and not read, or another thread is about to write one.
  pub Reachable-signals :
      (l : EventLoop)
      → Reachable body l
      → l.phase ≡ polling
      → (l.pending_functors ≢ []) ⊎ (l.quit ≡ true)
      → 0 < signals l
  Reachable-signals l r e waits =
      let s : IsSettled polling l = rw e at (Reachable-IsSettled l r) in
      elim waits [
        | inl some_wait ↦ elim s.0 [ inl none_wait ↦ absurd (some_wait none_wait) | inr w ↦ w ]
        | inr quits ↦ elim s.1 [ inl goes_on ↦ cc | inr w ↦ w ]
      ]
