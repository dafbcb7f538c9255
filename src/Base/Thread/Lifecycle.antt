-- ===== src/Base/Thread/Lifecycle.antt =====
-- base/Thread.cpp: the life of a thread object and of its pthread.
use rabbit_server.Prelude.{ℕ, ◌<◌, ◌≤◌, ◌≡◌, ◌≢◌, refl, true, false, none, some, Bytes, arith, ok}
use rabbit_server.Base.Thread.{
  Thread, join, detaches, holding, joinable, World, new_world, Reachable, begin, step,
}
use rabbit_server.Base.Thread.Invariant.{runner_refs, IsSound, Step-IsSound, join_ok}

new_world-IsSound :
    (id : ℕ) (t : Thread) → t.started ≡ false → t.joined ≡ false → IsSound id (new_world t)
new_world-IsSound id t n m = record {
  counted = refl;
  fits = λ u q. ground arith;
  released = λ q. cc;
  data_owned = refl;
  called = refl;
  told = λ u q p. cc;
}

Reachable-IsSound : (id : ℕ) (name : Bytes) (w : World) → Reachable id name w → IsSound id w
Reachable-IsSound id name _ (begin {t} n m) = new_world-IsSound id t n m
Reachable-IsSound id name _ (step {w} r st) = Step-IsSound st (Reachable-IsSound id name w r)

-- What a thread and its object keep to.
pub record IsManaged (id : ℕ) (w : World) : Type 0 where
  -- the cell is there when the pthread stores its number in it
  pub cell_there : w.runner ≡ holding → 0 < w.refs
  -- and no pointer to it is left at the end
  pub cell_freed : w.object ≡ none → runner_refs w.runner ≡ 0 → w.refs ≡ 0
  -- a pthread that `join` passes on to `pthread_join`, or the destructor detaches, is joinable
  pub joins_joinable : (t t' : Thread) → w.object ≡ some t → join t ≡ ok t' → w.handle ≡ joinable
  pub detaches_joinable : (t : Thread) → w.object ≡ some t → detaches t ≡ true → w.handle ≡ joinable
  -- and behind the destructor none is
  pub released : w.object ≡ none → w.handle ≢ joinable
  -- behind `join`, the function was called once, and `tid()` gives the pthread's number
  pub joined :
      (t : Thread)
      → w.object ≡ some t
      → t.joined ≡ true
      → (w.calls ≡ 1) × (w.tid ≡ id) × (w.has_data ≡ false)
  pub called_once : w.calls ≤ 1

-- In every reachable state of a thread object and its pthread, with the destructor at any moment:
-- the cell of `tid_` is there when the pthread stores its number, and has no pointer left once the
-- object is gone and the pthread has put its pointer back; a pthread for which `join` passes its
-- assertions, or which the destructor detaches, is joinable, and after the destructor none is;
-- behind `join`, the function was called once, `tid()` gives the pthread's number and the
-- `ThreadData` is deleted; the function is never called twice.
pub Reachable-IsManaged : (id : ℕ) (name : Bytes) (w : World) → Reachable id name w → IsManaged id w
unfolding detaches
Reachable-IsManaged id name w r =
    let s = Reachable-IsSound id name w r in
    record {
      cell_there = λ h. ground (arith, s.counted);
      cell_freed = λ h k. ground (arith, s.counted);
      joins_joinable = λ t t' e h. let (u, n, _) = join_ok t h in ground (arith, s.fits t e);
      detaches_joinable = λ t e h. ground (arith, s.fits t e);
      released = s.released;
      joined = λ t e j. (
        ground (arith, s.fits t e, s.called),
        ground (arith, s.fits t e, s.told t e),
        ground (arith, s.fits t e, s.data_owned),
      );
      called_once = ground (arith, s.called);
    }
