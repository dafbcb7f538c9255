-- ===== src/Base/Mutex.antt =====
-- base/Mutex.h and base/Condtion.h. The pthread mutex is held by one thread or by none; a thread is its
-- number, which `gettid` gives and which is not 0. A step is one call of pthread or one assignment to
-- `holder_`, so that other threads come in between them. Errors of pthread calls end in `assert`, and
-- are left out.
pub mod Exclusion
use rabbit_server.Prelude.{ℕ, ◌<◌, ◌≡◌, Bool, true, false, Option, none, some, ◌==◌, if◌then◌else◌}

-- Where a thread stands: without the mutex; with it, in front of `assignHolder`; behind that; with the
-- mutex behind `unassignHolder`, in `unlock` or in `wait`; and in `pthread_cond_wait`.
pub data Position : Type 0 where
  outside acquired inside unlocking falling_asleep sleeping : Position

pub record MutexLock : Type 0 where
  pub mutex : Option ℕ
  pub holder : ℕ
  pub position : ℕ → Position

-- The constructor.
abbrev pub new_mutex : MutexLock
new_mutex = record { mutex = none; holder = 0; position = λ t. outside }

abbrev pub is_locked_by_this_thread : ℕ → MutexLock → Bool
is_locked_by_this_thread tid m = m.holder == tid

abbrev pub moved : ℕ → Position → (ℕ → Position) → ℕ → Position
moved t p f u = if t == u then p else f u

-- `pthread_mutex_lock` in `lock`, and the end of `pthread_cond_wait`.
abbrev pub acquire : ℕ → MutexLock → MutexLock
acquire t m = record m { mutex = some t; position = moved t acquired m.position }

abbrev pub assign_holder : ℕ → MutexLock → MutexLock
assign_holder t m = record m { holder = t; position = moved t inside m.position }

-- `unassignHolder`, in `unlock` or in `UnassignGuard`.
abbrev pub unassign_holder : ℕ → Position → MutexLock → MutexLock
unassign_holder t p m = record m { holder = 0; position = moved t p m.position }

-- `pthread_mutex_unlock` in `unlock`, and the begin of `pthread_cond_wait`.
abbrev pub release : ℕ → Position → MutexLock → MutexLock
release t p m = record m { mutex = none; position = moved t p m.position }

pub data Step : MutexLock → MutexLock → Type 0 where
  locks :
      {m : MutexLock} (t : ℕ)
      → 0 < t
      → m.position t ≡ outside
      → m.mutex ≡ none
      → Step m (acquire t m)
  assigns : {m : MutexLock} (t : ℕ) → 0 < t → m.position t ≡ acquired → Step m (assign_holder t m)
  unlocks : {m : MutexLock} (t : ℕ) → m.position t ≡ inside → Step m (unassign_holder t unlocking m)
  unlocked : {m : MutexLock} (t : ℕ) → m.position t ≡ unlocking → Step m (release t outside m)
  waits :
      {m : MutexLock} (t : ℕ) → m.position t ≡ inside → Step m (unassign_holder t falling_asleep m)
  sleeps : {m : MutexLock} (t : ℕ) → m.position t ≡ falling_asleep → Step m (release t sleeping m)
  wakes :
      {m : MutexLock} (t : ℕ)
      → 0 < t
      → m.position t ≡ sleeping
      → m.mutex ≡ none
      → Step m (acquire t m)

pub data Reachable : MutexLock → Type 0 where
  begin : Reachable new_mutex
  step : {m m' : MutexLock} → Reachable m → Step m m' → Reachable m'
