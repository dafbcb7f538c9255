-- ===== src/Base/Thread.antt =====
-- base/Thread.h and base/Thread.cpp. One Thread object with its owner, and the pthread that `start`
-- creates. `tid_` points to a cell with a count of the shared pointers to it; `ThreadData` has a weak
-- one. The pthread has the number `id`. What it calls does not touch the object.
pub mod Invariant
pub mod Lifecycle
pub mod Names
use rabbit_server.Prelude.{
  ℕ, ◌+◌, ◌-◌, ◌≡◌, ◌≢◌, Bool, true, false, not, ◌&&◌, Option, none, some, ◌++◌, [], ◌∷◌,
  if◌then◌else◌, Bytes, codes, decimal, Result, ok, fault, assertion, aborted, take, ltb, is_empty,
}

pub record Thread : Type 0 where
  pub started : Bool
  pub joined : Bool
  pub name : Bytes

-- `setDefaultName`: the count of the threads, and the name; `snprintf` keeps 31 characters at most.
unfoldable pub set_default_name : ℕ → Bytes → ℕ × Bytes
set_default_name created name =
    let num = created + 1 in
    (num, if is_empty name then take 31 (codes "Thread" ++ decimal num) else name)

-- The constructor.
unfoldable pub new_thread : ℕ → Bytes → ℕ × Thread
unfolding set_default_name
new_thread created name =
    let (num, name') = set_default_name created name in
    (num, record { started = false; joined = false; name = name' })

-- `start`; the flag says whether `pthread_create` succeeds.
unfoldable pub start : Bool → Thread → Result Thread
start created t =
    if t.started
    then fault assertion
    else if created
    then ok (record t { started = true })
    else fault aborted

-- `join`, up to `pthread_join`.
unfoldable pub join : Thread → Result Thread
join t = if t.started && not t.joined then ok (record t { joined = true }) else fault assertion

-- The test of the destructor.
unfoldable pub detaches : Thread → Bool
detaches t = t.started && not t.joined

-- Where the pthread stands in `runInThread`: in front of `lock`; with the shared pointer, in front of and
-- behind the store; behind `reset`, or with no pointer; in `func_`; behind it; behind `delete data`; and
-- in `abort`.
pub data Runner : Type 0 where
  absent begun holding stored named running finished ended crashed : Runner

-- The pthread as the system sees it.
pub data Handle : Type 0 where
  no_thread joinable was_joined detached : Handle

pub record World : Type 0 where
  pub object : Option Thread
  pub handle : Handle
  pub runner : Runner
  pub has_data : Bool
  -- `*tid_`, and how many shared pointers to it there are
  pub tid : ℕ
  pub refs : ℕ
  -- how often `func_` was called
  pub calls : ℕ
  -- `t_threadName` of the pthread
  pub thread_name : Bytes

-- With a new object.
abbrev pub new_world : Thread → World
new_world t = record {
  object = some t;
  handle = no_thread;
  runner = absent;
  has_data = false;
  tid = 0;
  refs = 1;
  calls = 0;
  thread_name = codes "unknown";
}

abbrev pub after_start : Thread → World → World
after_start t w = record w { object = some t; handle = joinable; runner = begun; has_data = true }

abbrev pub after_join : Thread → World → World
after_join t w = record w { object = some t; handle = was_joined }

-- The destructor.
abbrev pub destroy : Thread → World → World
unfolding detaches
destroy t w = record w {
  object = none;
  handle = if detaches t then detached else w.handle;
  refs = w.refs - 1;
}

-- `wkTid_.lock()`: a pointer as long as there is one.
abbrev pub lock : World → World
lock w =
    if ltb 0 w.refs
    then record w { runner = holding; refs = w.refs + 1 }
    else record w { runner = named }

abbrev pub store_tid : ℕ → World → World
store_tid id w = record w { runner = stored; tid = id }

abbrev pub reset : World → World
reset w = record w { runner = named; refs = w.refs - 1 }

-- The thread's name, and the call of `func_`.
abbrev pub call_func : Bytes → World → World
call_func name w = record w {
  runner = running;
  calls = w.calls + 1;
  thread_name = if is_empty name then codes "RabbitThread" else name;
}

abbrev pub finish : World → World
finish w = record w { runner = finished; thread_name = codes "finished" }

-- The `catch`, up to `abort`.
abbrev pub crash : World → World
crash w = record w { runner = crashed; thread_name = codes "crashed" }

abbrev pub delete_data : World → World
delete_data w = record w { runner = ended; has_data = false }

-- A step of the owner or of the pthread; `name` is `name_` of the `ThreadData`. `pthread_join` comes
-- back when the pthread has ended, and the owner waits for it.
pub data Step (id : ℕ) (name : Bytes) : World → World → Type 0 where
  starts :
      {w : World} {t t' : Thread}
      → w.object ≡ some t
      → start true t ≡ ok t'
      → Step id name w (after_start t' w)
  joins :
      {w : World} {t t' : Thread}
      → w.object ≡ some t
      → join t ≡ ok t'
      → w.runner ≡ ended
      → Step id name w (after_join t' w)
  destroys : {w : World} {t : Thread} → w.object ≡ some t → Step id name w (destroy t w)
  locks : {w : World} → w.runner ≡ begun → Step id name w (lock w)
  stores : {w : World} → w.runner ≡ holding → Step id name w (store_tid id w)
  resets : {w : World} → w.runner ≡ stored → Step id name w (reset w)
  calls_func : {w : World} → w.runner ≡ named → Step id name w (call_func name w)
  returns : {w : World} → w.runner ≡ running → Step id name w (finish w)
  throws : {w : World} → w.runner ≡ running → Step id name w (crash w)
  deletes : {w : World} → w.runner ≡ finished → Step id name w (delete_data w)

pub data Reachable (id : ℕ) (name : Bytes) : World → Type 0 where
  begin : {t : Thread} → t.started ≡ false → t.joined ≡ false → Reachable id name (new_world t)
  step : {w w' : World} → Reachable id name w → Step id name w w' → Reachable id name w'
