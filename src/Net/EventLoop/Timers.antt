-- ===== src/Net/EventLoop/Timers.antt =====
-- net/EventLoop.cpp: the functions that add timers, called in the loop's thread. `p` is the pointer that
-- `new` gives. A double of seconds is its number of microseconds.
use rabbit_server.Prelude.{
  ℕ, ◌+◌, ◌*◌, ◌/◌, ◌≤◌, ◌<◌, ◌≡◌, ◌⊎◌, inl, inr, refl, ap, ◌∙◌, true, false, some, arith,
  Bool-cases, ok, List, [], ◌∷◌, ◌++◌, length,
}
use rabbit_server.Net.Timestamp.{microseconds_per_second, before, now_after}
use rabbit_server.Net.TimerQueue.{
  Timer, TimerQueue, Additions, run_callback, update, reset, insert, add_timer, add_timer_in_loop,
  reset_timer, add_new, add_all,
}
use rabbit_server.Net.TimerQueue.Heap.{update-same}
use rabbit_server.Net.TimerQueue.Ownership.{turn}

unfoldable pub add_timer_run_at : ℕ → ℕ → ℕ → ℕ → TimerQueue → TimerQueue
unfolding add_timer_in_loop
add_timer_run_at later p time func =
    add_timer_in_loop later p
      (record { callback = func; expiration = time; repeat = false; interval = 0 })

unfoldable pub add_timer_run_after : ℕ → ℕ → ℕ → ℕ → ℕ → TimerQueue → TimerQueue
unfolding add_timer_in_loop
add_timer_run_after now later p delay func =
    add_timer_in_loop later p
      (record { callback = func; expiration = now + delay; repeat = false; interval = 0 })

-- The double becomes the `int` of the constructor.
unfoldable pub every_timer : ℕ → ℕ → ℕ → Timer
every_timer now interval func = record {
  callback = func;
  expiration = now + interval;
  repeat = true;
  interval = interval / microseconds_per_second;
}

unfoldable pub add_timer_run_every : ℕ → ℕ → ℕ → ℕ → ℕ → TimerQueue → TimerQueue
unfolding add_timer_in_loop every_timer
add_timer_run_every now later p interval func =
    add_timer_in_loop later p (every_timer now interval func)

add_timer_late :
    (m p : ℕ) (t : Timer) (q : TimerQueue)
    → before t.expiration m ≡ true
    → (add_timer m p t q).0 ≡ q
unfolding add_timer
add_timer_late m p t q h = rw h refl

add_timer_early :
    (m p : ℕ) (t : Timer) (q : TimerQueue)
    → before t.expiration m ≡ false
    → (add_timer m p t q).0 ≡ record q { timers = insert t.expiration p q.timers }
unfolding add_timer
add_timer_early m p t q h = rw h refl

-- Adding timers calls nothing.
add_new-ran : (later p : ℕ) (t : Timer) (q : TimerQueue) → (add_new later p t q).ran ≡ q.ran
unfolding add_new add_timer
add_new-ran later p t q = ground arith

add_all-ran : (xs : List (ℕ × ℕ × Timer)) (q : TimerQueue) → (add_all xs q).ran ≡ q.ran
unfolding add_all
add_all-ran [] q = refl
add_all-ran ((later, p, t) ∷ xs) q = add_all-ran xs (add_new later p t q) ∙ add_new-ran later p t q

run_callback-ran :
    (added : Additions) (f : ℕ) (q : TimerQueue) → (run_callback added f q).ran ≡ q.ran ++ f ∷ []
unfolding run_callback
run_callback-ran added f q =
    add_all-ran (added (length q.ran) f) (record q { ran = q.ran ++ f ∷ [] })

-- When the turn of a timer that `addTimerRunEvery` made comes, its callback is called once; `reset`
-- reads the clock, and `addTimer` reads it again, later by at most a second: the timer stays in the
-- heap, and its next expiration lies the whole seconds of the interval behind the first reading;
-- with an interval of a second or more it is put into the queue with that key, and with a shorter
-- one it is not: the queue is what the callback left.
pub reset_timer_every :
    (added : Additions) (n m p now interval func : ℕ) (q : TimerQueue)
    → q.heap p ≡ some (every_timer now interval func)
    → n < m
    → m ≤ n + microseconds_per_second
    → let called = run_callback added func q in
      let next = n + microseconds_per_second * (interval / microseconds_per_second) in
      (q' : TimerQueue) × (reset_timer added n m p q ≡ ok q')
      × (q'.ran ≡ q.ran ++ func ∷ [])
      × (q'.heap p ≡ some (record (every_timer now interval func) { expiration = next }))
      × (((interval < microseconds_per_second) × (q'.timers ≡ called.timers))
          ⊎ ((microseconds_per_second ≤ interval) × (q'.timers ≡ insert next p called.timers)))
unfolding every_timer reset now_after
reset_timer_every added n m p now interval func q e late soon =
    let called = run_callback added func q in
    let t : Timer = record (every_timer now interval func) {
      expiration = n + microseconds_per_second * (interval / microseconds_per_second);
    } in
    let r : TimerQueue = record called { heap = update called.heap p (some t) } in
    let again : reset_timer added n m p q ≡ ok (add_timer m p t r).0 =
      turn added n m p (every_timer now interval func) q true e refl in
    elim (Bool-cases (before t.expiration m)) [
      | inl gone ↦ (
        r,
        again ∙ ap ok (add_timer_late m p t r gone),
        run_callback-ran added func q,
        update-same called.heap p (some t),
        inl (ground arith, refl),
      )
      | inr kept ↦ (
        record r { timers = insert t.expiration p called.timers },
        again ∙ ap ok (add_timer_early m p t r kept),
        run_callback-ran added func q,
        update-same called.heap p (some t),
        inr (ground arith, refl),
      )
    ]
