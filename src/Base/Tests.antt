-- ===== src/Base/Tests.antt =====
-- A mutex with one thread inside, a thread and a time, and the theorems on base/Mutex.h, base/Thread.cpp
-- and base/Condition.cpp applied to them.
use rabbit_server.Prelude.{◌≡◌, ◌≢◌, ◌↔◌, ◌⊎◌, refl, true, false, some, arith, codes, ◌+◌, ◌^◌, ◌<◌}
use rabbit_server.Base.Condition.{
  nanoseconds_per_second, Timespec, deadline, since_epoch, deadline-since_epoch,
}
use rabbit_server.Base.Thread
use rabbit_server.Base.Thread.{Thread, World, start}
use rabbit_server.Base.Thread.Lifecycle.{IsManaged, Reachable-IsManaged}
use rabbit_server.Base.Mutex.{
  MutexLock, new_mutex, acquire, assign_holder, is_locked_by_this_thread, inside, Reachable, begin,
  step, locks, assigns,
}
use rabbit_server.Base.Mutex.Exclusion.{Reachable-holder}

abbrev held : MutexLock
held = assign_holder 7 (acquire 7 new_mutex)

held-Reachable : Reachable held
held-Reachable = step (step begin (locks 7 (omega arith) refl refl)) (assigns 7 (omega arith) refl)

Reachable-holder_example :
    ((is_locked_by_this_thread 7 held ≡ true) ↔ (held.position 7 ≡ inside))
    × ((held.position 7 ≢ inside) ⊎ (held.mutex ≡ some 7))
Reachable-holder_example = Reachable-holder held 7 held-Reachable (omega arith)

abbrev named_thread : Thread
named_thread = record { started = false; joined = false; name = codes "io" }

abbrev started_thread : Thread
started_thread = record named_thread { started = true }

-- The pthread has the pointer to the cell, and the object goes.
abbrev left_alone : World
left_alone =
    Thread.destroy started_thread
      (Thread.lock (Thread.after_start started_thread (Thread.new_world named_thread)))

left_alone-Reachable : Thread.Reachable 12 (codes "io") left_alone
unfolding start
left_alone-Reachable =
    Thread.step
      (Thread.step (Thread.step (Thread.begin refl refl) (Thread.starts refl refl))
        (Thread.locks refl))
      (Thread.destroys refl)

Reachable-IsManaged_example : IsManaged 12 left_alone
Reachable-IsManaged_example = Reachable-IsManaged 12 (codes "io") left_alone left_alone-Reachable

abbrev some_time : Timespec
some_time = record { tv_sec = 1_700_000_000; tv_nsec = 999_999_999 }

deadline-since_epoch_example :
    ((deadline some_time 1_500_000_000).tv_nsec < nanoseconds_per_second)
    × ((deadline some_time 1_500_000_000).tv_sec < 2 ^ 63)
    × (since_epoch (deadline some_time 1_500_000_000) ≡ since_epoch some_time + 1_500_000_000)
deadline-since_epoch_example =
    deadline-since_epoch some_time 1_500_000_000 (omega arith) (omega arith) (omega arith)
