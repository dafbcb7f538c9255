-- ===== src/Net/TimerQueue.antt =====
-- net/Timer.h, net/Timer.cpp, net/TimerQueue.h and net/TimerQueue.cpp. A `Timer *` is a number, the
-- heap gives the timer behind it until it is deleted, and `timers_` is the multimap in the order of
-- its keys. The clock is a function from the number of the reading. A callback is a number, which
-- the run records; it may add timers.
pub mod Order
pub mod Heap
pub mod Adding
pub mod Ownership
pub mod Lifetime
use rabbit_server.Prelude.{
  ℕ, ◌+◌, Bool, true, false, Option, none, some, List, [], ◌∷◌, ◌++◌, if◌then◌else◌, ltb, length,
  ◌==◌, Result, ok, fault, dangling, ◌>>=◌,
}
use rabbit_server.Net.Timestamp.{before, now_after}

pub record Timer : Type 0 where
  pub callback : ℕ
  pub expiration : ℕ
  pub repeat : Bool
  pub interval : ℕ

-- `Timer::reset`, which a timer that does not repeat ignores.
unfoldable pub reset : ℕ → Timer → Timer
reset now t = if t.repeat then record t { expiration = now_after now t.interval } else t

abbrev pub Entry : Type 0
Entry = ℕ × ℕ

abbrev pub Heap : Type 0
Heap = ℕ → Option Timer

abbrev pub update : Heap → ℕ → Option Timer → Heap
update h p t q = if p == q then t else h q

pub record TimerQueue : Type 0 where
  pub timers : List Entry
  pub expired : List Entry
  pub heap : Heap
  pub ran : List ℕ

-- `multimap::insert`: behind the entries with the same key.
unfoldable pub insert : ℕ → ℕ → List Entry → List Entry
insert t p [] = (t, p) ∷ []
insert t p ((u, q) ∷ es) = if ltb t u then (t, p) ∷ (u, q) ∷ es else (u, q) ∷ insert t p es

-- `addTimer` for a timer that is in the heap: false, and nothing done, if it is late already.
unfoldable pub add_timer : ℕ → ℕ → Timer → TimerQueue → TimerQueue × Bool
add_timer now p t q =
    if before t.expiration now
    then (q, false)
    else (record q { timers = insert t.expiration p q.timers }, true)

-- The entries in front of `lower_bound(now)`, and those from there on.
unfoldable pub front : ℕ → List Entry → List Entry
front now [] = []
front now ((t, p) ∷ es) = if before t now then (t, p) ∷ front now es else []

unfoldable pub rear : ℕ → List Entry → List Entry
rear now [] = []
rear now ((t, p) ∷ es) = if before t now then rear now es else (t, p) ∷ es

-- `getExpiredTimers`.
unfoldable pub get_expired_timers : ℕ → TimerQueue → TimerQueue
get_expired_timers now q = record q { timers = rear now q.timers; expired = front now q.timers }

-- The constructor.
abbrev pub new_queue : TimerQueue
new_queue = record { timers = []; expired = []; heap = λ p. none; ran = [] }

-- `addTimerInLoop(new Timer(...))` in the loop's thread, where `RunInLoop` calls `addTimer` at once; `p` is
-- the pointer that `new` gives, and the clock's reading is the one in `addTimer`.
unfoldable pub add_timer_in_loop : ℕ → ℕ → Timer → TimerQueue → TimerQueue
add_timer_in_loop later p t q =
    (add_timer later p t (record q { heap = update q.heap p (some t) })).0

-- What a callback adds, by how many callbacks ran before it and which it is: for each timer the clock's
-- reading in `addTimer`, the pointer that `new` gives, and the timer.
abbrev pub Additions : Type 0
Additions = ℕ → ℕ → List (ℕ × ℕ × Timer)

-- `new` does not give a pointer that is in use; one that is stands for no call.
unfoldable pub add_new : ℕ → ℕ → Timer → TimerQueue → TimerQueue
unfolding add_timer_in_loop
add_new later p t q = elim (q.heap p) [ none ↦ add_timer_in_loop later p t q | some old ↦ q ]

unfoldable pub add_all : List (ℕ × ℕ × Timer) → TimerQueue → TimerQueue
unfolding add_new
add_all [] q = q
add_all ((later, p, t) ∷ xs) q = add_all xs (add_new later p t q)

module _ (added : Additions) where
  -- `run`.
  unfoldable pub run_callback : ℕ → TimerQueue → TimerQueue
  unfolding add_all
  run_callback f q = add_all (added (length q.ran) f) (record q { ran = q.ran ++ f ∷ [] })

  -- One round of the loop in `resetTimers`, with the clock's readings in `reset` and in `addTimer`.
  unfoldable pub reset_timer : ℕ → ℕ → ℕ → TimerQueue → Result TimerQueue
  unfolding run_callback
  reset_timer now later p q = elim (q.heap p) [
    | none ↦ fault dangling
    | some t ↦
        let called = run_callback t.callback q in
        let t' = reset now t in
        ok (
          if t.repeat
          then (add_timer later p t' (record called { heap = update called.heap p (some t') })).0
          else record called { heap = update called.heap p none })
  ]

  -- `resetTimers`, over the expired entries; the loop's reading number goes up by two a round.
  unfoldable pub reset_timers : (ℕ → ℕ) → ℕ → List Entry → TimerQueue → Result TimerQueue
  reset_timers clock n [] q = ok q
  reset_timers clock n ((t, p) ∷ es) q =
      reset_timer (clock n) (clock (n + 1)) p q >>= reset_timers clock (n + 2) es

  -- `handleRead`.
  unfoldable pub handle_read : (ℕ → ℕ) → TimerQueue → Result TimerQueue
  unfolding get_expired_timers
  handle_read clock q =
      let q' = get_expired_timers (clock 0) q in reset_timers clock 1 q'.expired q'

-- `delete` of a timer.
unfoldable pub delete_timer : ℕ → Heap → Result Heap
delete_timer p h = elim (h p) [ none ↦ fault dangling | some t ↦ ok (update h p none) ]

-- The destructor, over the entries of `timers_`.
unfoldable pub destroy : List Entry → Heap → Result Heap
unfolding delete_timer
destroy [] h = ok h
destroy ((t, p) ∷ es) h = delete_timer p h >>= destroy es

abbrev pub nanoiter : ℕ
nanoiter = 100_000_000

-- What `timerfd_settime` is given: the nanoseconds to the first expiration, and between two.
pub record Itimerspec : Type 0 where
  pub value_nsec : ℕ
  pub interval_nsec : ℕ

-- `TimerQueueStart`, with the descriptor watched.
abbrev pub timer_queue_start : Itimerspec
timer_queue_start = record { value_nsec = nanoiter; interval_nsec = nanoiter }
