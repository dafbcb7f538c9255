-- ===== src/Net/TimerQueue/Lifetime.antt =====
-- net/TimerQueue.cpp: a queue from its constructor to its destructor.
use rabbit_server.Prelude.{
  ℕ, ◌≡◌, ◌⊎◌, ◌==◌, ==_iff, refl, ap, sym, subst, ◌∙◌, none, some, List, [], ◌∷◌, arith, inl, inr,
  Bool-cases, ok, ◌>>=◌,
}
use rabbit_server.Net.TimerQueue.{
  Timer, TimerQueue, Additions, Entry, Heap, update, handle_read, new_queue, add_timer_in_loop,
  delete_timer, destroy,
}
use rabbit_server.Net.TimerQueue.Heap.{Apart, Free, Live, update-Live, update-same, update-other}
use rabbit_server.Net.TimerQueue.Adding.{IsOwned, add_timer_in_loop-Added}
use rabbit_server.Net.TimerQueue.Ownership.{handle_read_lem}

-- The queues that there can be: timers are added at new pointers, and the descriptor gets ready.
pub data Reachable : TimerQueue → Type 0 where
  begin : Reachable new_queue
  adds :
      {q : TimerQueue} (later p : ℕ) (t : Timer)
      → Reachable q
      → q.heap p ≡ none
      → Reachable (add_timer_in_loop later p t q)
  handles :
      {q q' : TimerQueue} (added : Additions) (clock : ℕ → ℕ)
      → Reachable q
      → handle_read added clock q ≡ ok q'
      → Reachable q'

Reachable-IsOwned : (q : TimerQueue) → Reachable q → IsOwned [] [] q
Reachable-IsOwned _ begin = record {
  present = [];
  apart = tt;
  waiting_live = tt;
  present_live = tt;
  sorted = tt;
}
Reachable-IsOwned _ (adds {q} later p t r e) =
    (add_timer_in_loop-Added later p t [] [] q (Reachable-IsOwned q r) e).owned
Reachable-IsOwned q' (handles {q} added clock r e) =
    let (_, _, after, _, _, e', _, owned) = handle_read_lem added clock q (Reachable-IsOwned q r) in
    let same : ok after ≡ ok q' = sym e' ∙ e in
    let as_there : after ≡ q' = cc in subst (IsOwned [] []) as_there owned

-- What the destructor leaves of the heap: the timers that stand in no entry, and none of the others.
pub record Destroyed (es : List Entry) (h : Heap) : Type 0 where
  pub left : Heap
  pub returns : destroy es h ≡ ok left
  pub others : (p : ℕ) → Free p es → left p ≡ h p
  pub gone : (p : ℕ) → left p ≡ none ⊎ Free p es

delete_timer_live :
    (h : Heap) (p : ℕ) (t : Timer) → h p ≡ some t → delete_timer p h ≡ ok (update h p none)
unfolding delete_timer
delete_timer_live h p t e = rw (delete_timer, e) refl

destroy-Destroyed :
    (es : List Entry) (ts : List Timer) (h : Heap) → Apart [] es → Live h es ts → Destroyed es h
unfolding destroy
destroy-Destroyed [] ts h a l = record {
  left = h;
  returns = refl;
  others = λ p f. refl;
  gone = λ p. inr tt;
}
destroy-Destroyed (e ∷ es) [] h a l = absurd l
destroy-Destroyed ((u, q) ∷ es) (t ∷ ts) h a l =
    let rest = destroy-Destroyed es ts (update h q none) a.1 (update-Live h q none es ts a.0 l.2) in
    record {
      left = rest.left;
      returns = ap (λ r. r >>= destroy es) (delete_timer_live h q t l.0) ∙ rest.returns;
      others = λ p f. rest.others p f.1 ∙ update-other h q p none (λ same. f.0 (sym same));
      gone = λ p. elim (rest.gone p) [
        | inl none_there ↦ inl none_there
        | inr free ↦ elim (Bool-cases (q == p)) [
          | inl same ↦
              let at_q : q ≡ p = (==_iff q p).0 same in
              inl (rest.others p free ∙ ap (update h q none) (sym at_q) ∙ update-same h q none)
          | inr other ↦ inr ((λ same. ground (arith, other, same)), free)
        ]
      ];
    }

-- For every queue that the constructor, adding timers at new pointers and handling the descriptor
-- lead to, with any readings of the clock and callbacks that may add timers: the next call of
-- `handleRead` returns, and so does the destructor, so that no timer is used or deleted after its
-- deletion; behind the destructor each pointer either leads to no timer or stood in no entry, and
-- what stood in no entry is as it was.
pub Reachable-Destroyed :
    (q : TimerQueue)
    → Reachable q
    → ((added : Additions) (clock : ℕ → ℕ)
        → (q' : TimerQueue) × (handle_read added clock q ≡ ok q'))
      × Destroyed q.timers q.heap
Reachable-Destroyed q r =
    let o = Reachable-IsOwned q r in
    (
      λ added clock.
          let (_, _, after, _, _, e, _, _) = handle_read_lem added clock q o in (after, e),
      destroy-Destroyed q.timers o.present q.heap o.apart o.present_live,
    )
