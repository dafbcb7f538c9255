-- ===== src/Net/EventLoop/Pending.antt =====
-- net/EventLoop.cpp: `doPendingFunctors` as a whole.
use rabbit_server.Prelude.{
  ℕ, ◌≡◌, refl, ap, sym, ◌∙◌, true, false, List, [], ◌∷◌, ◌++◌, Bool-cases, append_assoc,
  append-nil, inl, inr,
}
use rabbit_server.Net.EventLoop.{
  handling, running, EventLoop, queue_in_loop, stop, Request, queues, stops, perform, perform_all,
  begin_pending, swap_pending, run_functor, run_functors, do_pending_functors, end_pending, begins,
  swaps, runs, ends, Reachable, step,
}

-- The functors that some requests queue.
abbrev pub queues_of : List Request → List ℕ
queues_of [] = []
queues_of (queues f ∷ rs) = f ∷ queues_of rs
queues_of (stops ∷ rs) = queues_of rs

abbrev pub queues_of_all : (ℕ → List Request) → List ℕ → List ℕ
queues_of_all body [] = []
queues_of_all body (f ∷ fs) = queues_of (body f) ++ queues_of_all body fs

-- What requests do to the loop.
record Performed (rs : List Request) (l l' : EventLoop) : Type 0 where
  same_phase : l'.phase ≡ l.phase
  same_ran : l'.ran ≡ l.ran
  waiting : l'.pending_functors ≡ l.pending_functors ++ queues_of rs

queue_in_loop-Performed :
    (f : ℕ) (l : EventLoop) → Performed (queues f ∷ []) l (queue_in_loop true f l)
unfolding queue_in_loop
queue_in_loop-Performed f l = elim (Bool-cases l.calling_pending_functors) [
  | inl up ↦ rw up (record { same_phase = refl; same_ran = refl; waiting = refl })
  | inr down ↦ rw down (record { same_phase = refl; same_ran = refl; waiting = refl })
]

perform_all-Performed : (rs : List Request) (l : EventLoop) → Performed rs l (perform_all rs l)
unfolding perform_all perform stop
perform_all-Performed [] l = record {
  same_phase = refl;
  same_ran = refl;
  waiting = sym (append-nil l.pending_functors);
}
perform_all-Performed (queues f ∷ rs) l =
    let one = queue_in_loop-Performed f l in
    let rest = perform_all-Performed rs (queue_in_loop true f l) in
    record {
      same_phase = rest.same_phase ∙ one.same_phase;
      same_ran = rest.same_ran ∙ one.same_ran;
      waiting =
          rest.waiting
          ∙ ap (λ p. p ++ queues_of rs) one.waiting
          ∙ append_assoc l.pending_functors (f ∷ []) (queues_of rs);
    }
perform_all-Performed (stops ∷ rs) l =
    let rest = perform_all-Performed rs (record l { quit = true }) in
    record { same_phase = rest.same_phase; same_ran = rest.same_ran; waiting = rest.waiting }

module _ (body : ℕ → List Request) where
  -- What the calls of the functors leave.
  record Ran (fs : List ℕ) (l l' : EventLoop) : Type 0 where
    reachable : Reachable body l'
    no_rest : l'.phase ≡ running []
    all_ran : l'.ran ≡ l.ran ++ fs
    waiting : l'.pending_functors ≡ l.pending_functors ++ queues_of_all body fs

  run_functors-Ran :
      (fs : List ℕ) (l : EventLoop)
      → Reachable body l
      → l.phase ≡ running fs
      → Ran fs l (run_functors body fs l)
  unfolding run_functors run_functor
  run_functors-Ran [] l r e = record {
    reachable = r;
    no_rest = e;
    all_ran = sym (append-nil l.ran);
    waiting = sym (append-nil l.pending_functors);
  }
  run_functors-Ran (f ∷ fs) l r e =
      let one =
        perform_all-Performed (body f) (record l { phase = running fs; ran = l.ran ++ f ∷ [] }) in
      let rest =
        run_functors-Ran fs (run_functor body f fs l) (step r (runs f fs e)) one.same_phase in
      record {
        reachable = rest.reachable;
        no_rest = rest.no_rest;
        all_ran = rest.all_ran ∙ ap (λ x. x ++ fs) one.same_ran ∙ append_assoc l.ran (f ∷ []) fs;
        waiting =
            rest.waiting
            ∙ ap (λ x. x ++ queues_of_all body fs) one.waiting
            ∙ append_assoc l.pending_functors (queues_of (body f)) (queues_of_all body fs);
      }

  -- `doPendingFunctors`, from a reachable state in the handlers and with no other thread in between,
  -- calls exactly the functors that waited, in order, leaves waiting exactly those that they queued,
  -- ends with the flag down, and its steps lead to a reachable state.
  pub do_pending_functors_lem :
      (l : EventLoop)
      → Reachable body l
      → l.phase ≡ handling
      → Reachable body (do_pending_functors body l)
        × ((do_pending_functors body l).ran ≡ l.ran ++ l.pending_functors)
        × ((do_pending_functors body l).pending_functors ≡ queues_of_all body l.pending_functors)
        × ((do_pending_functors body l).calling_pending_functors ≡ false)
  unfolding do_pending_functors end_pending
  do_pending_functors_lem l r e =
      let h =
        run_functors-Ran l.pending_functors (swap_pending (begin_pending l))
          (step (step r (begins e)) (swaps refl)) refl in
      (step h.reachable (ends h.no_rest), h.all_ran, h.waiting, refl)
