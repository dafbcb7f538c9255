-- ===== src/Base/Thread/Invariant.antt =====
-- base/Thread.cpp: what every step keeps of a thread and its object.
use rabbit_server.Prelude.{
  ℕ, ◌+◌, ◌≡◌, ◌≢◌, ◌⊎◌, inl, inr, subst, sym, Bool, true, false, not, ◌&&◌, Option, none, some,
  Bytes, arith, ok, ltb, Bool-cases,
}
use rabbit_server.Base.Thread.{
  Thread, start, join, detaches, Runner, absent, begun, holding, stored, named, running, finished,
  ended, crashed, no_thread, joinable, was_joined, World, after_start, after_join, destroy, lock,
  store_tid, reset, call_func, finish, crash, delete_data, Step, starts, joins, destroys, locks,
  stores, resets, calls_func, returns, throws, deletes,
}

-- The pointers that the object and the pthread hold.
abbrev object_refs : Option Thread → ℕ
object_refs none = 0
object_refs (some t) = 1

abbrev pub runner_refs : Runner → ℕ
runner_refs holding = 1
runner_refs stored = 1
runner_refs _ = 0

-- How often `func_` was called by then.
abbrev call_count : Runner → ℕ
call_count running = 1
call_count finished = 1
call_count ended = 1
call_count crashed = 1
call_count _ = 0

-- The pthread owns its data.
abbrev owns_data : Runner → Bool
owns_data absent = false
owns_data ended = false
owns_data _ = true

-- The pthread has come to the store, or may have found no pointer.
abbrev past_store : Runner → Bool
past_store absent = false
past_store begun = false
past_store holding = false
past_store _ = true

-- What the flags of an object say.
abbrev Fits : World → Thread → Type 0
Fits w t =
    ((t.started ≡ false) × (t.joined ≡ false) × (w.handle ≡ no_thread) × (w.runner ≡ absent))
    ⊎ (((t.started ≡ true) × (t.joined ≡ false) × (w.handle ≡ joinable) × (w.runner ≢ absent))
        ⊎ ((t.started ≡ true) × (t.joined ≡ true) × (w.handle ≡ was_joined) × (w.runner ≡ ended)))

pub record IsSound (id : ℕ) (w : World) : Type 0 where
  pub counted : w.refs ≡ object_refs w.object + runner_refs w.runner
  pub fits : (t : Thread) → w.object ≡ some t → Fits w t
  pub released : w.object ≡ none → w.handle ≢ joinable
  pub data_owned : w.has_data ≡ owns_data w.runner
  pub called : w.calls ≡ call_count w.runner
  pub told : (t : Thread) → w.object ≡ some t → past_store w.runner ≡ true → w.tid ≡ id

start_ok :
    (t : Thread) {t' : Thread}
    → start true t ≡ ok t'
    → (t.started ≡ false) × (t' ≡ record t { started = true })
unfolding start
start_ok t h = elim (Bool-cases t.started) [
  | inl up ↦ let h' = rw up at h in cc
  | inr down ↦ let h' = rw down at h in (down, cc)
]

pub join_ok :
    (t : Thread) {t' : Thread}
    → join t ≡ ok t'
    → (t.started ≡ true) × (t.joined ≡ false) × (t' ≡ record t { joined = true })
unfolding join
join_ok t h = elim (Bool-cases (t.started && not t.joined)) [
  | inl up ↦ let h' = rw up at h in (ground arith, ground arith, cc)
  | inr down ↦ let h' = rw down at h in cc
]

module _ (id : ℕ) (w : World) (s : IsSound id w) where
  started-IsSound :
      (t : Thread)
      → w.object ≡ some t
      → t.started ≡ false
      → IsSound id (after_start (record t { started = true }) w)
  started-IsSound t e n = record {
    counted = ground (arith, s.counted, s.fits t e);
    fits = λ u q. ground (arith, s.fits t e);
    released = λ q. ground (arith, s.released, s.fits t e);
    data_owned = ground (arith, s.data_owned, s.fits t e);
    called = ground (arith, s.called, s.fits t e);
    told = λ u q p. ground (arith, s.told t e, s.fits t e);
  }

  joined-IsSound :
      (t : Thread)
      → w.object ≡ some t
      → t.started ≡ true
      → t.joined ≡ false
      → w.runner ≡ ended
      → IsSound id (after_join (record t { joined = true }) w)
  joined-IsSound t e u n en = record {
    counted = ground (arith, s.counted, s.fits t e);
    fits = λ u q. ground (arith, s.fits t e);
    released = λ q. ground (arith, s.released, s.fits t e);
    data_owned = ground (arith, s.data_owned, s.fits t e);
    called = ground (arith, s.called, s.fits t e);
    told = λ u q p. ground (arith, s.told t e, s.fits t e);
  }

  destroy-IsSound : (t : Thread) → w.object ≡ some t → IsSound id (destroy t w)
  unfolding detaches
  destroy-IsSound t e = record {
    counted = ground (arith, s.counted, s.fits t e);
    fits = λ u q. ground (arith, s.fits t e);
    released = λ q. ground (arith, s.released, s.fits t e);
    data_owned = ground (arith, s.data_owned, s.fits t e);
    called = ground (arith, s.called, s.fits t e);
    told = λ u q p. ground (arith, s.told t e, s.fits t e);
  }

  lock-IsSound : w.runner ≡ begun → IsSound id (lock w)
  lock-IsSound r = elim (Bool-cases (ltb 0 w.refs)) [
    | inl held ↦ rw held (record {
      counted = ground (arith, s.counted);
      fits = λ t q. ground (arith, s.fits t q);
      released = λ q. ground (arith, s.released q);
      data_owned = ground (arith, s.data_owned);
      called = ground (arith, s.called);
      told = λ t q p. cc;
    })
    | inr free ↦ rw free (record {
      counted = ground (arith, s.counted);
      fits = λ t q. ground (arith, s.fits t q);
      released = λ q. ground (arith, s.released q);
      data_owned = ground (arith, s.data_owned);
      called = ground (arith, s.called);
      told = λ t q p. ground (arith, s.counted);
    })
  ]

  store_tid-IsSound : w.runner ≡ holding → IsSound id (store_tid id w)
  store_tid-IsSound r = record {
    counted = ground (arith, s.counted);
    fits = λ t q. ground (arith, s.fits t q);
    released = λ q. ground (arith, s.released q);
    data_owned = ground (arith, s.data_owned);
    called = ground (arith, s.called);
    told = λ t q u. ground (arith, s.told t q);
  }

  reset-IsSound : w.runner ≡ stored → IsSound id (reset w)
  reset-IsSound r = record {
    counted = ground (arith, s.counted);
    fits = λ t q. ground (arith, s.fits t q);
    released = λ q. ground (arith, s.released q);
    data_owned = ground (arith, s.data_owned);
    called = ground (arith, s.called);
    told = λ t q u. ground (arith, s.told t q);
  }

  call_func-IsSound : (name : Bytes) → w.runner ≡ named → IsSound id (call_func name w)
  call_func-IsSound name r = record {
    counted = ground (arith, s.counted);
    fits = λ t q. ground (arith, s.fits t q);
    released = λ q. ground (arith, s.released q);
    data_owned = ground (arith, s.data_owned);
    called = ground (arith, s.called);
    told = λ t q u. ground (arith, s.told t q);
  }

  finish-IsSound : w.runner ≡ running → IsSound id (finish w)
  finish-IsSound r = record {
    counted = ground (arith, s.counted);
    fits = λ t q. ground (arith, s.fits t q);
    released = λ q. ground (arith, s.released q);
    data_owned = ground (arith, s.data_owned);
    called = ground (arith, s.called);
    told = λ t q u. ground (arith, s.told t q);
  }

  crash-IsSound : w.runner ≡ running → IsSound id (crash w)
  crash-IsSound r = record {
    counted = ground (arith, s.counted);
    fits = λ t q. ground (arith, s.fits t q);
    released = λ q. ground (arith, s.released q);
    data_owned = ground (arith, s.data_owned);
    called = ground (arith, s.called);
    told = λ t q u. ground (arith, s.told t q);
  }

  delete-IsSound : w.runner ≡ finished → IsSound id (delete_data w)
  delete-IsSound r = record {
    counted = ground (arith, s.counted);
    fits = λ t q. ground (arith, s.fits t q);
    released = λ q. ground (arith, s.released q);
    data_owned = ground (arith, s.data_owned);
    called = ground (arith, s.called);
    told = λ t q u. ground (arith, s.told t q);
  }

start-IsSound :
    (id : ℕ) (w : World) (t : Thread) {t' : Thread}
    → IsSound id w
    → w.object ≡ some t
    → start true t ≡ ok t'
    → IsSound id (after_start t' w)
start-IsSound id w t s e h =
    let (down, same) = start_ok t h in
    subst (λ x. IsSound id (after_start x w)) (sym same) (started-IsSound id w s t e down)

join-IsSound :
    (id : ℕ) (w : World) (t : Thread) {t' : Thread}
    → IsSound id w
    → w.object ≡ some t
    → join t ≡ ok t'
    → w.runner ≡ ended
    → IsSound id (after_join t' w)
join-IsSound id w t s e h en =
    let (up, open', same) = join_ok t h in
    subst (λ x. IsSound id (after_join x w)) (sym same) (joined-IsSound id w s t e up open' en)

pub Step-IsSound :
    {id : ℕ} {name : Bytes} {w w' : World} → Step id name w w' → IsSound id w → IsSound id w'
Step-IsSound {id} {name} {w} (starts {t = t} e h) s = start-IsSound id w t s e h
Step-IsSound {id} {name} {w} (joins {t = t} e h en) s = join-IsSound id w t s e h en
Step-IsSound {id} {name} {w} (destroys {t = t} e) s = destroy-IsSound id w s t e
Step-IsSound {id} {name} {w} (locks r) s = lock-IsSound id w s r
Step-IsSound {id} {name} {w} (stores r) s = store_tid-IsSound id w s r
Step-IsSound {id} {name} {w} (resets r) s = reset-IsSound id w s r
Step-IsSound {id} {name} {w} (calls_func r) s = call_func-IsSound id w s name r
Step-IsSound {id} {name} {w} (returns r) s = finish-IsSound id w s r
Step-IsSound {id} {name} {w} (throws r) s = crash-IsSound id w s r
Step-IsSound {id} {name} {w} (deletes r) s = delete-IsSound id w s r
