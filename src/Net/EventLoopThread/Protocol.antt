-- ===== src/Net/EventLoopThread/Protocol.antt =====
-- net/EventLoopThread.cpp: what the owner may rely on.
use rabbit_server.Prelude.{◌≡◌, ◌⊎◌, refl, Bool, true, false, arith}
use rabbit_server.Net.EventLoopThread.{
  ThreadPhase, unborn, starting, published, looping, leaving, ended, aborted, OwnerPhase, idle,
  waits_for_loop, has_loop, waits_for_end, joining, EventLoopThread, enter_loop, stop_loop, Step,
  starts, awaits, publishes, enters, blocks, wakes, leaves, withdraws, stops, stops_again, Chance,
  wakes_alone, finds_event, Reachable, begin, step, chance,
}

-- `loop_` points to a loop exactly while the thread's stack holds it.
abbrev is_alive : ThreadPhase → Bool
is_alive published = true
is_alive looping = true
is_alive leaving = true
is_alive aborted = true
is_alive _ = false

-- The owner's phase, with what the thread may do meanwhile.
abbrev pub Fits : OwnerPhase → ThreadPhase → Bool → Type 0
Fits idle th q = (th ≡ unborn) × (q ≡ false)
Fits waits_for_loop th q = ((th ≡ starting) ⊎ ((th ≡ published) ⊎ (th ≡ looping))) × (q ≡ false)
Fits has_loop th q = ((th ≡ published) ⊎ (th ≡ looping)) × (q ≡ false)
Fits waits_for_end th q =
    ((th ≡ published) ⊎ ((th ≡ looping) ⊎ ((th ≡ leaving) ⊎ ((th ≡ ended) ⊎ (th ≡ aborted)))))
    × (q ≡ true)
Fits joining th q = (th ≡ ended) × (q ≡ true)

-- When the owner may sleep: before the step that wakes it.
abbrev pub may_sleep : OwnerPhase → ThreadPhase → Bool
may_sleep waits_for_loop starting = true
may_sleep waits_for_loop _ = false
may_sleep waits_for_end ended = false
may_sleep waits_for_end _ = true
may_sleep _ _ = false

pub record IsSafe (t : EventLoopThread) : Type 0 where
  pub set_alive : t.loop_set ≡ is_alive t.thread
  pub fits : Fits t.owner t.thread t.quit
  -- who is blocked will be woken
  pub owner_woken : t.asleep ≡ true → may_sleep t.owner t.thread ≡ true
  pub thread_woken : t.blocked ≡ true → t.quit ≡ true → t.woken ≡ true

Step-IsSafe : {t t' : EventLoopThread} → Step t t' → IsSafe t → IsSafe t'
Step-IsSafe (starts e) s = record {
  set_alive = ground arith;
  fits = ground arith;
  owner_woken = λ h. ground (arith, h, s.owner_woken);
  thread_woken = λ h g. ground (arith, h, g, s.thread_woken);
}
Step-IsSafe (awaits e a) s = record {
  set_alive = ground arith;
  fits = ground arith;
  owner_woken = λ h. ground (arith, h, s.owner_woken);
  thread_woken = λ h g. ground (arith, h, g, s.thread_woken);
}
Step-IsSafe (publishes e) s = record {
  set_alive = ground arith;
  fits = ground arith;
  owner_woken = λ h. ground (arith, h, s.owner_woken);
  thread_woken = λ h g. ground (arith, h, g, s.thread_woken);
}
Step-IsSafe (enters e) s = record {
  set_alive = ground arith;
  fits = ground arith;
  owner_woken = λ h. ground (arith, h, s.owner_woken);
  thread_woken = λ h g. ground (arith, h, g, s.thread_woken);
}
Step-IsSafe (blocks e b q) s = record {
  set_alive = ground arith;
  fits = ground arith;
  owner_woken = λ h. ground (arith, h, s.owner_woken);
  thread_woken = λ h g. ground (arith, h, g, s.thread_woken);
}
Step-IsSafe (wakes e b w) s = record {
  set_alive = ground arith;
  fits = ground arith;
  owner_woken = λ h. ground (arith, h, s.owner_woken);
  thread_woken = λ h g. ground (arith, h, g, s.thread_woken);
}
Step-IsSafe (leaves e b q) s = record {
  set_alive = ground arith;
  fits = ground arith;
  owner_woken = λ h. ground (arith, h, s.owner_woken);
  thread_woken = λ h g. ground (arith, h, g, s.thread_woken);
}
Step-IsSafe (withdraws e) s = record {
  set_alive = ground arith;
  fits = ground arith;
  owner_woken = λ h. ground (arith, h, s.owner_woken);
  thread_woken = λ h g. ground (arith, h, g, s.thread_woken);
}
Step-IsSafe (stops e) s = record {
  set_alive = ground arith;
  fits = ground arith;
  owner_woken = λ h. ground (arith, h, s.owner_woken);
  thread_woken = λ h g. ground (arith, h, g, s.thread_woken);
}
Step-IsSafe (stops_again e a) s = record {
  set_alive = ground arith;
  fits = ground arith;
  owner_woken = λ h. ground (arith, h, s.owner_woken);
  thread_woken = λ h g. ground (arith, h, g, s.thread_woken);
}

Chance-IsSafe : {t t' : EventLoopThread} → Chance t t' → IsSafe t → IsSafe t'
Chance-IsSafe (wakes_alone a) s = record {
  set_alive = ground arith;
  fits = ground arith;
  owner_woken = λ h. ground (arith, h, s.owner_woken);
  thread_woken = λ h g. ground (arith, h, g, s.thread_woken);
}
Chance-IsSafe (finds_event e b) s = record {
  set_alive = ground arith;
  fits = ground arith;
  owner_woken = λ h. ground (arith, h, s.owner_woken);
  thread_woken = λ h g. ground (arith, h, g, s.thread_woken);
}

pub Reachable-IsSafe : (t : EventLoopThread) → Reachable t → IsSafe t
Reachable-IsSafe _ begin = record {
  set_alive = refl;
  fits = (refl, refl);
  owner_woken = λ h. cc;
  thread_woken = λ h g. cc;
}
Reachable-IsSafe _ (step {t} r st) = Step-IsSafe st (Reachable-IsSafe t r)
Reachable-IsSafe _ (chance {t} r c) = Chance-IsSafe c (Reachable-IsSafe t r)

-- In every reachable state of a loop's thread and its owner: when `startLoop` has returned and the
-- owner has not stopped the loop, `loop_` points to a loop that its thread still holds, with `quit_`
-- unset, so that it does not leave it; when `stopLoop` has returned, the thread is at its end and
-- `loop_` is empty; or else the owner has not started, or waits in one of the two functions.
pub Reachable-owner :
    (t : EventLoopThread)
    → Reachable t
    → ((t.owner ≡ has_loop)
        × (t.loop_set ≡ true)
        × (t.quit ≡ false)
        × ((t.thread ≡ published) ⊎ (t.thread ≡ looping)))
      ⊎ (((t.owner ≡ joining) × (t.loop_set ≡ false) × (t.thread ≡ ended))
          ⊎ ((t.owner ≡ idle) ⊎ ((t.owner ≡ waits_for_loop) ⊎ (t.owner ≡ waits_for_end))))
Reachable-owner t r = let s = Reachable-IsSafe t r in cases t s
  where
    cases :
        (t : EventLoopThread)
        → IsSafe t
        → ((t.owner ≡ has_loop)
            × (t.loop_set ≡ true)
            × (t.quit ≡ false)
            × ((t.thread ≡ published) ⊎ (t.thread ≡ looping)))
          ⊎ (((t.owner ≡ joining) × (t.loop_set ≡ false) × (t.thread ≡ ended))
              ⊎ ((t.owner ≡ idle) ⊎ ((t.owner ≡ waits_for_loop) ⊎ (t.owner ≡ waits_for_end))))
    cases t s = ground arith

-- From any reachable state in which `startLoop` has returned but the thread has not yet called
-- `loop()`, stopping the loop and then entering it is possible, and the assertion in front of the
-- iterations fails.
pub stop_before_loop :
    (t : EventLoopThread)
    → Reachable t
    → t.owner ≡ has_loop
    → t.thread ≡ published
    → Reachable (enter_loop (stop_loop t)) × ((enter_loop (stop_loop t)).thread ≡ aborted)
stop_before_loop t r o e =
    let s = Reachable-IsSafe t r in
    (step (step r (stops o)) (enters (published_still t e)), aborts t s e)
  where
    published_still :
        (t : EventLoopThread) → t.thread ≡ published → (stop_loop t).thread ≡ published
    published_still t e = ground arith

    aborts :
        (t : EventLoopThread)
        → IsSafe t
        → t.thread ≡ published
        → (enter_loop (stop_loop t)).thread ≡ aborted
    aborts t s e = ground arith
