-- ===== src/Net/EventLoopThread/Progress.antt =====
-- net/EventLoopThread.cpp: the owner and the thread do not wait for each other forever.
use rabbit_server.Prelude.{
  ℕ, zero, suc, ◌+◌, ◌<◌, ◌≡◌, ◌⊎◌, inl, inr, refl, true, false, arith, Bool-cases, if◌then◌else◌,
}
use rabbit_server.Net.EventLoopThread.{
  ThreadPhase, unborn, starting, published, looping, leaving, ended, aborted, OwnerPhase, idle,
  waits_for_loop, has_loop, waits_for_end, joining, EventLoopThread, start_loop, await_loop,
  publish, enter_loop, leave_loop, withdraw, stop_loop, wake, Step, starts, awaits, publishes,
  enters, blocks, wakes, leaves, withdraws, stops, stops_again, Reachable, step,
}
use rabbit_server.Net.EventLoopThread.Protocol.{may_sleep, Fits, IsSafe, Reachable-IsSafe}

abbrev pub IsAtRest : EventLoopThread → Type 0
IsAtRest t = (t.owner ≡ has_loop) ⊎ ((t.owner ≡ joining) ⊎ (t.thread ≡ aborted))

abbrev pub Moves : EventLoopThread → Type 0
Moves t = (t' : EventLoopThread) × Step t t'

loops-Moves : (t : EventLoopThread) → IsSafe t → t.thread ≡ looping → t.quit ≡ true → Moves t
loops-Moves t s e q = elim (Bool-cases t.blocked) [
  | inl b ↦ (wake t, wakes e b (s.thread_woken b q))
  | inr b ↦ (leave_loop t, leaves e b q)
]

up_to_date :
    (t : EventLoopThread) → IsSafe t → may_sleep t.owner t.thread ≡ false → t.asleep ≡ false
up_to_date t s n = ground (arith, s.owner_woken, n)

IsSafe-Moves :
    (t : EventLoopThread)
    → IsSafe t
    → (o : OwnerPhase) → t.owner ≡ o
    → Fits o t.thread t.quit
    → IsAtRest t ⊎ Moves t
IsSafe-Moves t s idle o f = inr (start_loop t, starts o)
IsSafe-Moves t s waits_for_loop o (inl e, q) = inr (publish t, publishes e)
IsSafe-Moves t s waits_for_loop o (inr g, q) =
    inr (await_loop t, awaits o (up_to_date t s (ground arith)))
IsSafe-Moves t s has_loop o f = inl (inl o)
IsSafe-Moves t s waits_for_end o (inl e, q) = inr (enter_loop t, enters e)
IsSafe-Moves t s waits_for_end o (inr (inl e), q) = inr (loops-Moves t s e q)
IsSafe-Moves t s waits_for_end o (inr (inr (inl e)), q) = inr (withdraw t, withdraws e)
IsSafe-Moves t s waits_for_end o (inr (inr (inr (inl e))), q) =
    inr (stop_loop t, stops_again o (up_to_date t s (ground arith)))
IsSafe-Moves t s waits_for_end o (inr (inr (inr (inr e))), q) = inl (inr (inr e))
IsSafe-Moves t s joining o f = inl (inr (inl o))

-- What is left to do.
abbrev thread_rank : ThreadPhase → ℕ
thread_rank unborn = 60
thread_rank starting = 50
thread_rank published = 40
thread_rank looping = 30
thread_rank leaving = 20
thread_rank ended = 10
thread_rank aborted = 0

abbrev owner_rank : OwnerPhase → ℕ
owner_rank idle = 40
owner_rank waits_for_loop = 30
owner_rank has_loop = 20
owner_rank waits_for_end = 10
owner_rank joining = 0

abbrev effort : EventLoopThread → ℕ
effort t =
    thread_rank t.thread
    + owner_rank t.owner
    + ((if t.asleep then 0 else 3) + ((if t.woken then 2 else 0) + (if t.blocked then 0 else 1)))

Step-effort : {t t' : EventLoopThread} → Step t t' → IsSafe t → effort t' < effort t
Step-effort (starts e) s = ground arith
Step-effort (awaits e a) s = ground arith
Step-effort (publishes e) s = ground arith
Step-effort (enters e) s = ground arith
Step-effort (blocks e b q) s = ground arith
Step-effort (wakes e b w) s = ground arith
Step-effort (leaves e b q) s = ground arith
Step-effort (withdraws e) s = ground arith
Step-effort (stops e) s = ground arith
Step-effort (stops_again e a) s = ground arith

-- Every run of steps comes to an end, and it ends at rest.
pub data Settles : EventLoopThread → Type 0 where
  settles :
      {t : EventLoopThread}
      → IsAtRest t ⊎ Moves t
      → ((t' : EventLoopThread) → Step t t' → Settles t')
      → Settles t

effort-Settles : (n : ℕ) (t : EventLoopThread) → Reachable t → effort t < n → Settles t
effort-Settles zero t r h = absurd (omega (arith, h))
effort-Settles (suc n) t r h =
    let s = Reachable-IsSafe t r in
    settles (IsSafe-Moves t s t.owner refl s.fits)
      (λ t' st. effort-Settles n t' (step r st) (omega (arith, Step-effort st s, h)))

-- From every reachable state of a loop's thread and its owner, every run of their steps is finite,
-- and while the owner neither has its loop nor has ended it, and the assertion of `loop()` has not
-- failed, a step is possible; in these runs an owner that sleeps is woken by `notify` alone, and a
-- thread that is blocked in `Poll` by the eventfd alone.
pub Reachable-Settles : (t : EventLoopThread) → Reachable t → Settles t
Reachable-Settles t r = effort-Settles (suc (effort t)) t r (omega arith)
