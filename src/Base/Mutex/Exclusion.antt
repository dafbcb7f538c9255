-- ===== src/Base/Mutex/Exclusion.antt =====
-- base/Mutex.h and base/Condtion.h: one thread at a time, and `holder_` names it.
use rabbit_server.Prelude.{
  ℕ, ◌<◌, ◌≡◌, ◌≢◌, ◌↔◌, ◌⊎◌, refl, Bool, true, false, none, some, arith, ==_iff,
}
use rabbit_server.Base.Mutex.{
  Position, outside, acquired, inside, unlocking, falling_asleep, sleeping, MutexLock,
  is_locked_by_this_thread, acquire, assign_holder, unassign_holder, release, Step, locks, assigns,
  unlocks, unlocked, waits, sleeps, wakes, Reachable, begin, step,
}

-- The positions in which a thread has the mutex.
abbrev has_mutex : Position → Bool
has_mutex acquired = true
has_mutex inside = true
has_mutex unlocking = true
has_mutex falling_asleep = true
has_mutex _ = false

record IsSound (m : MutexLock) : Type 0 where
  owner : (u : ℕ) → has_mutex (m.position u) ≡ true → m.mutex ≡ some u
  named : (u : ℕ) → m.position u ≡ inside → m.holder ≡ u
  entered : (u : ℕ) → m.holder ≡ u → 0 < u → m.position u ≡ inside

acquire-IsSound : (m : MutexLock) (t : ℕ) → m.mutex ≡ none → IsSound m → IsSound (acquire t m)
acquire-IsSound m t free s = record {
  owner = λ u h. ground (arith, s.owner u);
  named = λ u h. ground (arith, s.named u);
  entered = λ u h k. ground (arith, s.owner u, s.entered u);
}

assign_holder-IsSound :
    (m : MutexLock) (t : ℕ) → m.position t ≡ acquired → IsSound m → IsSound (assign_holder t m)
assign_holder-IsSound m t p s = record {
  owner = λ u h. ground (arith, s.owner u, s.owner t);
  named = λ u h. ground (arith, s.owner u, s.owner t);
  entered = λ u h k. ground (arith, s.owner u);
}

unassign_holder-IsSound :
    (m : MutexLock) (t : ℕ) (q : Position)
    → m.position t ≡ inside
    → has_mutex q ≡ true
    → q ≢ inside
    → IsSound m
    → IsSound (unassign_holder t q m)
unassign_holder-IsSound m t q p w n s = record {
  owner = λ u h. ground (arith, s.owner u, s.owner t);
  named = λ u h. ground (arith, n, s.owner u, s.owner t);
  entered = λ u h k. absurd (omega (arith, h, k));
}

release-IsSound :
    (m : MutexLock) (t : ℕ) (q : Position)
    → has_mutex (m.position t) ≡ true
    → m.position t ≢ inside
    → has_mutex q ≡ false
    → IsSound m
    → IsSound (release t q m)
release-IsSound m t q p n w s = record {
  owner = λ u h. ground (arith, s.owner u, s.owner t);
  named = λ u h. ground (arith, s.owner u, s.owner t, s.named u);
  entered = λ u h k. ground (arith, n, s.owner u, s.owner t, s.entered u);
}

Step-IsSound : {m m' : MutexLock} → Step m m' → IsSound m → IsSound m'
Step-IsSound {m} (locks t z p free) s = acquire-IsSound m t free s
Step-IsSound {m} (assigns t z p) s = assign_holder-IsSound m t p s
Step-IsSound {m} (unlocks t p) s = unassign_holder-IsSound m t unlocking p refl (λ e. cc) s
Step-IsSound {m} (unlocked t p) s = release-IsSound m t outside (rw p refl) (λ e. cc) refl s
Step-IsSound {m} (waits t p) s = unassign_holder-IsSound m t falling_asleep p refl (λ e. cc) s
Step-IsSound {m} (sleeps t p) s = release-IsSound m t sleeping (rw p refl) (λ e. cc) refl s
Step-IsSound {m} (wakes t z p free) s = acquire-IsSound m t free s

Reachable-IsSound : (m : MutexLock) → Reachable m → IsSound m
Reachable-IsSound _ begin = record {
  owner = λ u h. cc;
  named = λ u h. cc;
  entered = λ u h k. absurd (omega (arith, h, k));
}
Reachable-IsSound _ (step {m} r st) = Step-IsSound st (Reachable-IsSound m r)

-- In every reachable state of a mutex, with threads that lock, unlock and wait on its condition:
-- `isLockedByThisThread` says yes to a thread exactly if that thread is between the end of `lock` or
-- `wait` and the next `unlock` or `wait`, and there it has the pthread mutex.
pub Reachable-holder :
    (m : MutexLock) (t : ℕ)
    → Reachable m
    → 0 < t
    → ((is_locked_by_this_thread t m ≡ true) ↔ (m.position t ≡ inside))
      × ((m.position t ≢ inside) ⊎ (m.mutex ≡ some t))
Reachable-holder m t r z =
    let s = Reachable-IsSound m r in
    (
      (λ e. s.entered t ((==_iff m.holder t).0 e) z, λ e. (==_iff m.holder t).1 (s.named t e)),
      ground (arith, s.owner t),
    )
