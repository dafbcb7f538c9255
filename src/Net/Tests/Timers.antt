-- ===== src/Net/Tests/Timers.antt =====
-- A queue with one timer, and the theorems on net/TimerQueue.cpp and net/EventLoop.cpp applied to it.
use rabbit_server.Prelude.{ℕ, ◌≡◌, ◌≤◌, ◌<◌, ◌⊎◌, refl, false, [], ◌∷◌, some, arith, ok}
use rabbit_server.Net.EventLoop.Timers.{every_timer, reset_timer_every}
use rabbit_server.Net.TimerQueue
use rabbit_server.Net.TimerQueue.Lifetime.{begin, adds, Destroyed, Reachable-Destroyed}
use rabbit_server.Net.TimerQueue.{
  Timer, TimerQueue, Additions, run_callback, new_queue, add_timer_in_loop, insert, reset_timer,
  update,
}
use rabbit_server.Net.Timestamp.{microseconds_per_second}

-- A timer for every half of a second.
abbrev half : Timer
half = every_timer 1000 500_000 7

abbrev one_timer : TimerQueue
one_timer = add_timer_in_loop 1001 3 half new_queue

Reachable-Destroyed_example :
    ((added : Additions) (clock : ℕ → ℕ)
      → (q' : TimerQueue) × (TimerQueue.handle_read added clock one_timer ≡ ok q'))
    × Destroyed one_timer.timers one_timer.heap
Reachable-Destroyed_example = Reachable-Destroyed one_timer (adds 1001 3 half begin refl)

abbrev with_half : TimerQueue
with_half = record new_queue { heap = update new_queue.heap 3 (some half) }

-- Its callback adds a timer.
abbrev adds_one : Additions
adds_one n f = (600_000, 4, record half { repeat = false }) ∷ []

reset_timer_every_example :
    (q' : TimerQueue) × (reset_timer adds_one 600_000 600_001 3 with_half ≡ ok q')
    × (q'.ran ≡ 7 ∷ [])
    × (q'.heap 3 ≡ some (record half { expiration = 600_000 }))
    × (((500_000 < microseconds_per_second)
          × (q'.timers ≡ (run_callback adds_one 7 with_half).timers))
        ⊎ ((microseconds_per_second ≤ 500_000)
            × (q'.timers ≡ insert 600_000 3 (run_callback adds_one 7 with_half).timers)))
unfolding every_timer
reset_timer_every_example =
    reset_timer_every adds_one 600_000 600_001 3 1000 500_000 7 with_half refl (omega arith)
      (omega arith)
