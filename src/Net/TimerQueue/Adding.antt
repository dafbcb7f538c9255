-- ===== src/Net/TimerQueue/Adding.antt =====
-- net/TimerQueue.cpp: adding timers keeps every timer of the queue alive and once in it.
use rabbit_server.Prelude.{
  ℕ, ◌≡◌, subst, Option-cases, refl, sym, ◌∙◌, none, some, List, [], ◌∷◌, inl, inr, arith,
  Bool-cases,
}
use rabbit_server.Net.Timestamp.{before}
use rabbit_server.Net.TimerQueue.Order.{IsSorted, insert-AtLeast}
use rabbit_server.Net.TimerQueue.{
  Timer, TimerQueue, Entry, add_timer_in_loop, add_new, add_all, update, add_timer,
}
use rabbit_server.Net.TimerQueue.Heap.{
  Apart, Free, Live, insert-Apart, insert-Live, update-Live, update-same, unused-Free,
}

-- The invariant of the queue while the entries `es` wait to be run.
pub record IsOwned (es : List Entry) (waiting : List Timer) (q : TimerQueue) : Type 0 where
  pub present : List Timer
  pub apart : Apart es q.timers
  pub waiting_live : Live q.heap es waiting
  pub present_live : Live q.heap q.timers present
  pub sorted : IsSorted q.timers

-- What `add_timer` leaves.
pub record Added (es : List Entry) (waiting : List Timer) (ran : List ℕ) (q : TimerQueue)
    : Type 0 where
  pub owned : IsOwned es waiting q
  pub recorded : q.ran ≡ ran

pub add_timer-Added :
    (later p : ℕ) (es : List Entry) (t : Timer) (waiting : List Timer) (q : TimerQueue)
    → IsOwned es waiting q
    → Free p es
    → Free p q.timers
    → q.heap p ≡ some t
    → Added es waiting q.ran (add_timer later p t q).0
unfolding add_timer
add_timer-Added later p es t waiting q o fe ft e = elim (Bool-cases (before t.expiration later)) [
  | inl late ↦ rw late (record { owned = o; recorded = refl })
  | inr early ↦
      let (present, live) = insert-Live q.heap p t q.timers o.present e o.present_live in
      rw early (record {
        owned = record {
          present = present;
          apart = insert-Apart t.expiration p es q.timers fe ft o.apart;
          waiting_live = o.waiting_live;
          present_live = live;
          sorted = insert-AtLeast 0 t.expiration p q.timers (omega arith) o.sorted;
        };
        recorded = refl;
      })
]

pub add_timer_in_loop-Added :
    (later p : ℕ) (t : Timer) (es : List Entry) (waiting : List Timer) (q : TimerQueue)
    → IsOwned es waiting q
    → q.heap p ≡ none
    → Added es waiting q.ran (add_timer_in_loop later p t q)
unfolding add_timer_in_loop
add_timer_in_loop-Added later p t es waiting q o e =
    let free = unused-Free q.heap p q.timers o.present e o.present_live in
    let free_waiting = unused-Free q.heap p es waiting e o.waiting_live in
    add_timer-Added later p es t waiting (record q { heap = update q.heap p (some t) })
      (record {
        present = o.present;
        apart = o.apart;
        waiting_live = update-Live q.heap p (some t) es waiting free_waiting o.waiting_live;
        present_live = update-Live q.heap p (some t) q.timers o.present free o.present_live;
        sorted = o.sorted;
      })
      free_waiting free (update-same q.heap p (some t))

add_new_free :
    (later p : ℕ) (t : Timer) (q : TimerQueue)
    → q.heap p ≡ none
    → add_new later p t q ≡ add_timer_in_loop later p t q
unfolding add_new
add_new_free later p t q e = rw (add_new, e) refl

add_new_used :
    (later p : ℕ) (t old : Timer) (q : TimerQueue) → q.heap p ≡ some old → add_new later p t q ≡ q
unfolding add_new
add_new_used later p t old q e = rw (add_new, e) refl

add_new-Added :
    (later p : ℕ) (t : Timer) (es : List Entry) (waiting : List Timer) (q : TimerQueue)
    → IsOwned es waiting q
    → Added es waiting q.ran (add_new later p t q)
unfolding add_new
add_new-Added later p t es waiting q o = elim (Option-cases (q.heap p)) [
  | inl free ↦
      subst (Added es waiting q.ran) (sym (add_new_free later p t q free))
        (add_timer_in_loop-Added later p t es waiting q o free)
  | inr (old, used) ↦
      subst (Added es waiting q.ran) (sym (add_new_used later p t old q used))
        (record { owned = o; recorded = refl })
]

pub add_all-Added :
    (xs : List (ℕ × ℕ × Timer)) (es : List Entry) (waiting : List Timer) (q : TimerQueue)
    → IsOwned es waiting q
    → Added es waiting q.ran (add_all xs q)
unfolding add_all
add_all-Added [] es waiting q o = record { owned = o; recorded = refl }
add_all-Added ((later, p, t) ∷ xs) es waiting q o =
    let one = add_new-Added later p t es waiting q o in
    let rest = add_all-Added xs es waiting (add_new later p t q) one.owned in
    record { owned = rest.owned; recorded = rest.recorded ∙ one.recorded }
