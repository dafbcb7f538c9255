-- ===== src/Net/EventLoop.antt =====
-- net/EventLoop.h and net/EventLoop.cpp. The loop's thread goes through the phases of an iteration of
-- `loop`; other threads come in between its steps. A functor is a number, and `body` says what it
-- does to the loop. The eventfd is its counter. `queued` and `ran` record the functors in the order in
-- which they were put into `pendingFunctors_` and in which they were called.
pub mod Wakeup
pub mod Order
pub mod Pending
pub mod Timers
pub mod Instances
use rabbit_server.Prelude.{
  ℕ, ◌+◌, ◌-◌, ◌<◌, ◌≡◌, Bool, true, false, not, ◌||◌, List, [], ◌∷◌, ◌++◌, if◌then◌else◌,
}

-- Blocked in `Poll`; in the handlers of the active channels; in `doPendingFunctors`, before the swap
-- and behind it, with the rest of `toRun`; and behind the loop.
pub data Phase : Type 0 where
  polling handling flagged : Phase
  running : List ℕ → Phase
  stopped : Phase

pub record EventLoop : Type 0 where
  pub phase : Phase
  pub quit : Bool
  pub calling_pending_functors : Bool
  pub wakeups : ℕ
  pub pending_functors : List ℕ
  -- the other threads between a change of the loop and their call of `wakeup`
  pub in_flight : ℕ
  pub queued : List ℕ
  pub ran : List ℕ

-- At the start of `loop`.
abbrev pub new_loop : EventLoop
new_loop = record {
  phase = polling;
  quit = false;
  calling_pending_functors = false;
  wakeups = 0;
  pending_functors = [];
  in_flight = 0;
  queued = [];
  ran = [];
}

abbrev pub wakeup : EventLoop → EventLoop
wakeup l = record l { wakeups = l.wakeups + 1 }

-- `handleRead`: reading the eventfd takes the whole count.
abbrev pub handle_read : EventLoop → EventLoop
handle_read l = record l { wakeups = 0 }

abbrev pub push : ℕ → EventLoop → EventLoop
push f l = record l { pending_functors = l.pending_functors ++ f ∷ []; queued = l.queued ++ f ∷ [] }

-- `QueueInLoop`; the flag is `isInLoopThread()`.
unfoldable pub queue_in_loop : Bool → ℕ → EventLoop → EventLoop
queue_in_loop in_loop f l =
    let l' = push f l in if not in_loop || l'.calling_pending_functors then wakeup l' else l'

-- `stop`.
unfoldable pub stop : Bool → EventLoop → EventLoop
stop in_loop l = let l' = record l { quit = true } in if not in_loop then wakeup l' else l'

-- What code in the loop's thread asks of the loop.
pub data Request : Type 0 where
  queues : ℕ → Request
  stops : Request

unfoldable pub perform : Request → EventLoop → EventLoop
unfolding queue_in_loop stop
perform (queues f) l = queue_in_loop true f l
perform stops l = stop true l

unfoldable pub perform_all : List Request → EventLoop → EventLoop
unfolding perform
perform_all [] l = l
perform_all (r ∷ rs) l = perform_all rs (perform r l)

-- `RunInLoop`: a functor that comes from the loop's thread is called at once.
unfoldable pub run_in_loop : (ℕ → List Request) → Bool → ℕ → EventLoop → EventLoop
unfolding perform_all queue_in_loop
run_in_loop body in_loop f l = if in_loop then perform_all (body f) l else queue_in_loop in_loop f l

-- The parts of `doPendingFunctors`.
abbrev pub begin_pending : EventLoop → EventLoop
begin_pending l = record l { phase = flagged; calling_pending_functors = true }

abbrev pub swap_pending : EventLoop → EventLoop
swap_pending l = record l { phase = running l.pending_functors; pending_functors = [] }

unfoldable pub run_functor : (ℕ → List Request) → ℕ → List ℕ → EventLoop → EventLoop
unfolding perform_all
run_functor body f fs l =
    perform_all (body f) (record l { phase = running fs; ran = l.ran ++ f ∷ [] })

-- The flag goes down, and `loop` tests `quit_`.
unfoldable pub end_pending : EventLoop → EventLoop
end_pending l = record l {
  phase = if l.quit then stopped else polling;
  calling_pending_functors = false;
}

module _ (body : ℕ → List Request) where
  unfoldable pub run_functors : List ℕ → EventLoop → EventLoop
  unfolding run_functor
  run_functors [] l = l
  run_functors (f ∷ fs) l = run_functors fs (run_functor body f fs l)

  -- `doPendingFunctors` when no other thread comes in between, and the test behind it.
  unfoldable pub do_pending_functors : EventLoop → EventLoop
  unfolding run_functors end_pending
  do_pending_functors l =
      end_pending (run_functors l.pending_functors (swap_pending (begin_pending l)))

  -- A step of the loop's thread, or of another one.
  pub data Step : EventLoop → EventLoop → Type 0 where
    poll_returns : {l : EventLoop} → l.phase ≡ polling → Step l (record l { phase = handling })
    reads : {l : EventLoop} → l.phase ≡ handling → 0 < l.wakeups → Step l (handle_read l)
    handler_calls : {l : EventLoop} (r : Request) → l.phase ≡ handling → Step l (perform r l)
    begins : {l : EventLoop} → l.phase ≡ handling → Step l (begin_pending l)
    swaps : {l : EventLoop} → l.phase ≡ flagged → Step l (swap_pending l)
    runs :
        {l : EventLoop} (f : ℕ) (fs : List ℕ)
        → l.phase ≡ running (f ∷ fs)
        → Step l (run_functor body f fs l)
    ends : {l : EventLoop} → l.phase ≡ running [] → Step l (end_pending l)
    -- another thread: `QueueInLoop` up to the push, `stop` up to the flag, and `wakeup`
    other_pushes :
        {l : EventLoop} (f : ℕ) → Step l (record (push f l) { in_flight = l.in_flight + 1 })
    other_stops : {l : EventLoop} → Step l (record l { quit = true; in_flight = l.in_flight + 1 })
    other_wakes :
        {l : EventLoop}
        → 0 < l.in_flight
        → Step l (wakeup (record l { in_flight = l.in_flight - 1 }))

  -- The states that the loop can be in.
  pub data Reachable : EventLoop → Type 0 where
    start : Reachable new_loop
    step : {l l' : EventLoop} → Reachable l → Step l l' → Reachable l'
