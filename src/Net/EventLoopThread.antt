-- ===== src/Net/EventLoopThread.antt =====
-- net/EventLoopThread.h and net/EventLoopThread.cpp: the thread of a loop, and its owner, who starts
-- it and stops it in the destructor. A critical section of the mutex up to its end or its
-- `cond_.wait()` is one step. The loop itself is in net/EventLoop.cpp: of it there are `quit_`, the
-- assertion in front of its iterations, whether its thread is blocked in `Poll`, and whether the
-- eventfd is set, which ends that.
pub mod Protocol
pub mod Progress
use rabbit_server.Prelude.{◌≡◌, Bool, true, false, if◌then◌else◌}

-- Where `threadFunc` stands: not started; before `loop_` is set; before `loop()`; in the iterations;
-- behind them, with `loop_` still set; at its end. Or the assertion of `loop()` has failed.
pub data ThreadPhase : Type 0 where
  unborn starting published looping leaving ended aborted : ThreadPhase

-- Where the owner stands: before `startLoop`; waiting in it; behind it; waiting in `stopLoop`; behind it.
pub data OwnerPhase : Type 0 where
  idle waits_for_loop has_loop waits_for_end joining : OwnerPhase

pub record EventLoopThread : Type 0 where
  pub thread : ThreadPhase
  pub owner : OwnerPhase
  pub loop_set : Bool
  pub quit : Bool
  -- the owner is in `cond_.wait()`, and has not been woken
  pub asleep : Bool
  -- the thread is in `Poll`, and the eventfd is set
  pub blocked : Bool
  pub woken : Bool

-- The constructor.
abbrev pub new_thread : EventLoopThread
new_thread = record {
  thread = unborn;
  owner = idle;
  loop_set = false;
  quit = false;
  asleep = false;
  blocked = false;
  woken = false;
}

-- `cond_.notify()`: the owner is the only one that waits.
abbrev pub notify : EventLoopThread → EventLoopThread
notify t = record t { asleep = false }

-- `startLoop`: up to its section, and one test of its condition, with the wait if it fails.
abbrev pub start_loop : EventLoopThread → EventLoopThread
start_loop t = record t { thread = starting; owner = waits_for_loop }

abbrev pub await_loop : EventLoopThread → EventLoopThread
await_loop t = if t.loop_set then record t { owner = has_loop } else record t { asleep = true }

-- `threadFunc`: its first section, the entry of `loop()`, the end of the iterations, its last section.
abbrev pub publish : EventLoopThread → EventLoopThread
publish t = notify (record t { thread = published; loop_set = true })

abbrev pub enter_loop : EventLoopThread → EventLoopThread
enter_loop t = record t { thread = if t.quit then aborted else looping }

abbrev pub leave_loop : EventLoopThread → EventLoopThread
leave_loop t = record t { thread = leaving }

abbrev pub withdraw : EventLoopThread → EventLoopThread
withdraw t = notify (record t { thread = ended; loop_set = false })

-- An iteration: `Poll` blocks, and returns for the eventfd, which `handleRead` reads, or for another event.
abbrev pub block : EventLoopThread → EventLoopThread
block t = record t { blocked = true }

abbrev pub wake : EventLoopThread → EventLoopThread
wake t = record t { blocked = false; woken = false }

abbrev pub take_event : EventLoopThread → EventLoopThread
take_event t = record t { blocked = false }

-- `loop_->stop()`, called in the owner's thread.
abbrev pub stop : EventLoopThread → EventLoopThread
stop t = record t { quit = true; woken = true }

-- One test of the condition of `stopLoop`, with the body of its loop.
abbrev pub stop_loop : EventLoopThread → EventLoopThread
stop_loop t =
    if t.loop_set
    then record (stop t) { owner = waits_for_end; asleep = true }
    else record t { owner = joining }

-- A step of the owner or of the thread that nothing else has to bring about.
pub data Step : EventLoopThread → EventLoopThread → Type 0 where
  starts : {t : EventLoopThread} → t.owner ≡ idle → Step t (start_loop t)
  awaits :
      {t : EventLoopThread} → t.owner ≡ waits_for_loop → t.asleep ≡ false → Step t (await_loop t)
  publishes : {t : EventLoopThread} → t.thread ≡ starting → Step t (publish t)
  enters : {t : EventLoopThread} → t.thread ≡ published → Step t (enter_loop t)
  blocks :
      {t : EventLoopThread}
      → t.thread ≡ looping
      → t.blocked ≡ false
      → t.quit ≡ false
      → Step t (block t)
  wakes :
      {t : EventLoopThread}
      → t.thread ≡ looping
      → t.blocked ≡ true
      → t.woken ≡ true
      → Step t (wake t)
  leaves :
      {t : EventLoopThread}
      → t.thread ≡ looping
      → t.blocked ≡ false
      → t.quit ≡ true
      → Step t (leave_loop t)
  withdraws : {t : EventLoopThread} → t.thread ≡ leaving → Step t (withdraw t)
  stops : {t : EventLoopThread} → t.owner ≡ has_loop → Step t (stop_loop t)
  stops_again :
      {t : EventLoopThread} → t.owner ≡ waits_for_end → t.asleep ≡ false → Step t (stop_loop t)

-- What may happen and need not: `cond_.wait()` wakes for no reason, and a descriptor becomes ready.
pub data Chance : EventLoopThread → EventLoopThread → Type 0 where
  wakes_alone : {t : EventLoopThread} → t.asleep ≡ true → Chance t (record t { asleep = false })
  finds_event :
      {t : EventLoopThread} → t.thread ≡ looping → t.blocked ≡ true → Chance t (take_event t)

pub data Reachable : EventLoopThread → Type 0 where
  begin : Reachable new_thread
  step : {t t' : EventLoopThread} → Reachable t → Step t t' → Reachable t'
  chance : {t t' : EventLoopThread} → Reachable t → Chance t t' → Reachable t'
