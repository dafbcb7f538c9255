-- ===== src/Net/EventLoop/Order.antt =====
-- net/EventLoop.cpp: each functor is called once, in the order of the queue.
use rabbit_server.Prelude.{
  ℕ, ◌≡◌, refl, ap, sym, ◌∙◌, List, [], ◌∷◌, ◌++◌, Bool-cases, append_assoc, append-nil, inl, inr,
}
use rabbit_server.Net.EventLoop.{
  Phase, running, EventLoop, push, queue_in_loop, stop, Request, queues, stops, perform,
  perform_all, run_functor, end_pending, Step, poll_returns, reads, handler_calls, begins, swaps,
  runs, ends, other_pushes, other_stops, other_wakes, Reachable, start, step,
}

-- The functors that `doPendingFunctors` has taken and not yet called.
abbrev pub to_run : Phase → List ℕ
to_run (running fs) = fs
to_run _ = []

abbrev IsOrdered : EventLoop → Type 0
IsOrdered l = l.queued ≡ l.ran ++ (to_run l.phase ++ l.pending_functors)

push-IsOrdered : (f : ℕ) (l : EventLoop) → IsOrdered l → IsOrdered (push f l)
push-IsOrdered f l h =
    ap (λ q. q ++ f ∷ []) h
    ∙ append_assoc l.ran (to_run l.phase ++ l.pending_functors) (f ∷ [])
    ∙ ap (◌++◌ l.ran) (append_assoc (to_run l.phase) l.pending_functors (f ∷ []))

perform-IsOrdered : (r : Request) (l : EventLoop) → IsOrdered l → IsOrdered (perform r l)
unfolding perform queue_in_loop stop
perform-IsOrdered (queues f) l h = elim (Bool-cases l.calling_pending_functors) [
  | inl up ↦ rw up (push-IsOrdered f l h)
  | inr down ↦ rw down (push-IsOrdered f l h)
]
perform-IsOrdered stops l h = h

perform_all-IsOrdered :
    (rs : List Request) (l : EventLoop) → IsOrdered l → IsOrdered (perform_all rs l)
unfolding perform_all
perform_all-IsOrdered [] l h = h
perform_all-IsOrdered (r ∷ rs) l h =
    perform_all-IsOrdered rs (perform r l) (perform-IsOrdered r l h)

module _ (body : ℕ → List Request) where
  Step-IsOrdered : {l l' : EventLoop} → Step body l l' → IsOrdered l → IsOrdered l'
  unfolding run_functor end_pending
  Step-IsOrdered (poll_returns e) h = rw e at h
  Step-IsOrdered (reads e w) h = h
  Step-IsOrdered {l} (handler_calls r e) h = perform-IsOrdered r l h
  Step-IsOrdered (begins e) h = rw e at h
  Step-IsOrdered {l} (swaps e) h =
      (rw e at h) ∙ ap (◌++◌ l.ran) (sym (append-nil l.pending_functors))
  Step-IsOrdered {l} (runs f fs e) h =
      perform_all-IsOrdered (body f) (record l { phase = running fs; ran = l.ran ++ f ∷ [] })
        ((rw e at h) ∙ sym (append_assoc l.ran (f ∷ []) (fs ++ l.pending_functors)))
  Step-IsOrdered {l} (ends e) h = elim (Bool-cases l.quit) [
    | inl q ↦ rw q (rw e at h)
    | inr q ↦ rw q (rw e at h)
  ]
  Step-IsOrdered {l} (other_pushes f) h = push-IsOrdered f l h
  Step-IsOrdered other_stops h = h
  Step-IsOrdered (other_wakes w) h = h

  -- Each functor is called once, in the order of the queue: in every reachable state, the functors
  -- queued so far are those that were called, in the same order, then those that `doPendingFunctors`
  -- has taken, then those that wait.
  pub Reachable-queued :
      (l : EventLoop)
      → Reachable body l
      → l.queued ≡ l.ran ++ (to_run l.phase ++ l.pending_functors)
  Reachable-queued _ start = refl
  Reachable-queued _ (step {l} r st) = Step-IsOrdered st (Reachable-queued l r)
