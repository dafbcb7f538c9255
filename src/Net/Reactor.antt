-- ===== src/Net/Reactor.antt =====
-- net/EventLoop.cpp, net/Poller.cpp and net/Channel.cpp together: the iterations of `loop` with the
-- channels behind epoll's pointers. A `Channel *` is a number. What callbacks and functors do to
-- channels comes as further steps. When `loop` ends is left to Net/EventLoop.antt.
pub mod Pointers
pub mod Kept
pub mod Calls
use rabbit_server.Prelude.{
  ℕ, ◌≡◌, ◌≢◌, Bool, true, false, Option, none, some, List, [], ◌∷◌, ◌++◌, Result, ok, ◌>>=◌,
}
use rabbit_server.Net.Channel.{
  Channel, Events, Callback, Callbacks, Index, new, new_channel, handle_event, tie,
}
use rabbit_server.Net.Poller.{
  Epoll, EpollEvent, Heap, put, find, poll, WaitOutcome, wait_failed, ready, Change, removed,
  change, init_events_num,
}

-- Blocked in `Poll`; in the handlers, with the active channels that are left; and in
-- `doPendingFunctors`.
pub data Phase : Type 0 where
  polling calling : Phase
  handling : List ℕ → Phase

-- `reported` and `called` record the events that `epoll_wait` gave last, and the channels whose
-- `handleEvent` was called since, with their `revents_` and the callbacks that it called.
pub record Reactor (K : Type 0) : Type 0 where
  pub heap : Heap
  pub interest : K
  pub room : ℕ
  pub phase : Phase
  -- the channel whose `handleEvent` was called last
  pub current : Option ℕ
  pub reported : List EpollEvent
  pub called : List (ℕ × Events × List Callback)

-- At the start of `loop`, on an epoll instance.
abbrev pub new_reactor : {K : Type 0} → K → Reactor K
new_reactor k = record {
  heap = λ p. none;
  interest = k;
  room = init_events_num;
  phase = polling;
  current = none;
  reported = [];
  called = [];
}

-- The events that `epoll_wait` gives.
abbrev pub reported_by : WaitOutcome → List EpollEvent
reported_by wait_failed = []
reported_by (ready es) = es

-- `Poll` in `loop`, into the list that was cleared.
unfoldable pub begin_round : {K : Type 0} → WaitOutcome → Reactor K → Result (Reactor K)
unfolding poll
begin_round o r = poll o r.room (r.heap, []) >>= λ (room, (heap, active)). ok (record r {
  heap = heap;
  room = room;
  phase = handling active;
  current = none;
  reported = reported_by o;
  called = [];
})

-- `(*it)->handleEvent()`; the flag says whether the object that the channel is tied to still lives.
unfoldable pub handle_next : {K : Type 0} → Bool → ℕ → List ℕ → Reactor K → Result (Reactor K)
unfolding find
handle_next alive p ps r = find p r.heap >>= λ c. ok (record r {
  phase = handling ps;
  current = some p;
  called = r.called ++ (p, c.revents, handle_event alive c) ∷ [];
})

-- epoll holds the pointer for some descriptor.
abbrev pub IsHeld : {K : Type 0} (epoll : Epoll K) (k : K) (p : ℕ) → Type 0
IsHeld epoll k p = (fd : ℕ) × (e : Events) × (epoll.interest k fd ≡ some (p, e))

abbrev pub AreHeld : {K : Type 0} (epoll : Epoll K) (k : K) → List EpollEvent → Type 0
AreHeld epoll k [] = Unit {0}
AreHeld epoll k ((p, e) ∷ es) = IsHeld epoll k p × AreHeld epoll k es

abbrev pub pointers : List EpollEvent → List ℕ
pointers [] = []
pointers ((p, e) ∷ es) = p ∷ pointers es

abbrev pub IsAbsent : ℕ → List ℕ → Type 0
IsAbsent p [] = Unit {0}
IsAbsent p (q ∷ qs) = (p ≢ q) × IsAbsent p qs

abbrev pub AreDistinct : List ℕ → Type 0
AreDistinct [] = Unit {0}
AreDistinct (p ∷ ps) = IsAbsent p ps × AreDistinct ps

-- What epoll_wait(2) promises: it reports pointers that epoll holds, each once.
abbrev pub IsPromised : {K : Type 0} (epoll : Epoll K) (k : K) → WaitOutcome → Type 0
IsPromised epoll k wait_failed = Unit {0}
IsPromised epoll k (ready es) = AreHeld epoll k es × AreDistinct (pointers es)

module _ {K : Type 0} (epoll : Epoll K) where
  unfoldable pub change_channel : Change → ℕ → Channel → Reactor K → Reactor K
  unfolding change
  change_channel ch p c r =
      let (k, c') = change epoll p ch r.interest c in
      record r { heap = put p (some c') r.heap; interest = k }

  -- A step of the loop's thread, with what it leads to.
  pub data Step : Reactor K → Result (Reactor K) → Type 0 where
    polls :
        {r : Reactor K} (o : WaitOutcome)
        → r.phase ≡ polling
        → IsPromised epoll r.interest o
        → Step r (begin_round o r)
    handles :
        {r : Reactor K} (alive : Bool) (p : ℕ) (ps : List ℕ)
        → r.phase ≡ handling (p ∷ ps)
        → Step r (handle_next alive p ps r)
    begins_functors :
        {r : Reactor K} → r.phase ≡ handling [] → Step r (ok (record r { phase = calling }))
    ends_functors : {r : Reactor K} → r.phase ≡ calling → Step r (ok (record r { phase = polling }))
    -- a callback or a functor makes a channel, sets its callbacks, ties it, changes its flags, and
    -- deletes it when the poller does not have it
    creates :
        {r : Reactor K} (p fd : ℕ)
        → r.heap p ≡ none
        → Step r (ok (record r { heap = put p (some (new_channel fd)) r.heap }))
    sets :
        {r : Reactor K} (p : ℕ) (c : Channel) (callbacks : Callbacks)
        → r.heap p ≡ some c
        → Step r (ok (record r { heap = put p (some (record c { callbacks = callbacks })) r.heap }))
    ties :
        {r : Reactor K} (p : ℕ) (c : Channel)
        → r.heap p ≡ some c
        → Step r (ok (record r { heap = put p (some (tie c)) r.heap }))
    changes :
        {r : Reactor K} (ch : Change) (p : ℕ) (c : Channel)
        → ch ≢ removed
        → r.heap p ≡ some c
        → Step r (ok (change_channel ch p c r))
    -- `connectionDestroyed`, as a functor
    removes :
        {r : Reactor K} (p : ℕ) (c : Channel)
        → r.phase ≡ calling
        → r.heap p ≡ some c
        → Step r (ok (change_channel removed p c r))
    -- `handleHup` calls `connectionDestroyed` in the handler of its own channel
    removes_own :
        {r : Reactor K} (p : ℕ) (c : Channel)
        → r.current ≡ some p
        → r.heap p ≡ some c
        → Step r (ok (change_channel removed p c r))
    deletes :
        {r : Reactor K} (p : ℕ) (c : Channel)
        → r.heap p ≡ some c
        → c.index ≡ new
        → Step r (ok (record r { heap = put p none r.heap }))

  -- The states that the loop can be in, from an epoll instance.
  pub data Reachable (k : K) : Reactor K → Type 0 where
    start : Reachable k (new_reactor k)
    step : {r r' : Reactor K} → Reachable k r → Step r (ok r') → Reachable k r'
