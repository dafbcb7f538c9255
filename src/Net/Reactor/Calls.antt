-- ===== src/Net/Reactor/Calls.antt =====
-- net/EventLoop.cpp, net/Poller.cpp: `loop` calls the channels that epoll reports, and they are there.
use rabbit_server.Prelude.{
  ℕ, ◌≡◌, refl, ap, sym, ◌∙◌, subst, none, some, List, [], ◌∷◌, ◌++◌, arith, Result, ok, append-nil,
}
use rabbit_server.Net.Channel.{tie}
use rabbit_server.Net.Poller.{EpollEvent, Epoll, put}
use rabbit_server.Net.Reactor.Pointers.{put-Keeps, put_unknown-Keeps, same_channel}
use rabbit_server.Net.Reactor.Kept.{
  rest, events_of, IsKept, Goes, heap-IsKept, begin_round-Goes, handle_next-Goes, same_fields,
  nothing, change-IsKept, remove-IsKept, phase-IsKept,
}
use rabbit_server.Net.Reactor.{
  pointers, IsAbsent, Reactor, new_reactor, polling, calling, Step, polls, handles, begins_functors,
  ends_functors, creates, sets, ties, changes, removes, removes_own, deletes, Reachable, start,
  step,
}

module _ {K : Type 0} (epoll : Epoll K) where
  Step-Goes :
      (r : Reactor K) (x : Result (Reactor K)) → IsKept epoll r → Step epoll r x → Goes epoll x
  Step-Goes r _ k (polls o phase h) = begin_round-Goes epoll o r k h
  Step-Goes r _ k (handles alive p ps phase) = handle_next-Goes epoll alive p ps r k phase
  Step-Goes r _ k (begins_functors phase) = record {
    after = _;
    returns = refl;
    kept = phase-IsKept epoll r calling k (ap rest phase) refl;
  }
  Step-Goes r _ k (ends_functors phase) = record {
    after = _;
    returns = refl;
    kept = phase-IsKept epoll r polling k (ap rest phase) refl;
  }
  Step-Goes r _ k (creates p fd e) = record {
    after = _;
    returns = refl;
    kept =
        heap-IsKept epoll r (put p (some _) r.heap) k
          (put_unknown-Keeps r.heap p (some _) (λ c there. absurd (nothing e there)));
  }
  Step-Goes r _ k (sets p c callbacks e) = record {
    after = _;
    returns = refl;
    kept = heap-IsKept epoll r (put p (some _) r.heap) k (
        put-Keeps r.heap p c (record c { callbacks = callbacks }) e
          (same_fields epoll c (record c { callbacks = callbacks }) refl refl refl));
  }
  Step-Goes r _ k (ties p c e) = record {
    after = _;
    returns = refl;
    kept =
        heap-IsKept epoll r (put p (some _) r.heap) k (
          put-Keeps r.heap p c (tie c) e
            (unfold tie in same_fields epoll c (tie c) refl refl refl));
  }
  Step-Goes r _ k (changes ch p c n e) = record {
    after = _;
    returns = refl;
    kept = change-IsKept epoll ch p c r k n e;
  }
  Step-Goes r _ k (removes p c phase e) =
      let away = subst (IsAbsent p) (ap rest (sym phase) ∙ k.left_is) tt in
      record { after = _; returns = refl; kept = remove-IsKept epoll p c r k away e }
  Step-Goes r _ k (removes_own p c own e) = record {
    after = _;
    returns = refl;
    kept = remove-IsKept epoll p c r k (k.apart p own) e;
  }
  Step-Goes r _ k (deletes p c e i) = record {
    after = _;
    returns = refl;
    kept =
        heap-IsKept epoll r (put p none r.heap) k (
          put_unknown-Keeps r.heap p none
            (λ d there a. ground (arith, i, a, same_channel e there)));
  }

  new-IsKept : (k : K) → ((fd : ℕ) → epoll.interest k fd ≡ none) → IsKept epoll (new_reactor k)
  new-IsKept k empty = record {
    entries = λ fd p e x. absurd (nothing (empty fd) x);
    left = [];
    left_is = refl;
    active = tt;
    in_order = refl;
    distinct = tt;
    apart = λ p e. tt;
  }

  none_left : (es : List EpollEvent) → [] ≡ pointers es → es ≡ []
  none_left [] e = refl
  none_left ((p, e) ∷ es) x = ground (arith, x)

  ok_same : {r r' : Reactor K} → ok r ≡ ok r' → r ≡ r'
  ok_same {r} {r'} e = ground (arith, e)

  Reachable-IsKept :
      (k : K) (r : Reactor K)
      → ((fd : ℕ) → epoll.interest k fd ≡ none)
      → Reachable epoll k r
      → IsKept epoll r
  Reachable-IsKept k _ empty start = new-IsKept k empty
  Reachable-IsKept k r' empty (step {r} reach s) =
      let g = Step-Goes r (ok r') (Reachable-IsKept k r empty reach) s in
      subst (IsKept epoll) (ok_same (sym g.returns)) g.kept

  -- What a step leads to.
  pub record IsCalled (x : Result (Reactor K)) : Type 0 where
    pub after : Reactor K
    pub returns : x ≡ ok after
    pub all_called : after.phase ≡ calling → events_of after.called ≡ after.reported

  -- On an empty epoll instance that reports only pointers that it holds, each once, and in which the
  -- channels change as the code changes them, with removals by functors and in a channel's own
  -- handler only and no deletion of a channel that the poller has: every step returns, so that
  -- neither `fillActiveChannels` nor the loop over the active channels uses a deleted channel,
  -- though channels are deleted while others are handled; and in `doPendingFunctors`, `handleEvent`
  -- has been called for just the channels that `epoll_wait` reported, in its order, each with the
  -- events reported for it.
  pub Reachable-IsCalled :
      (k : K) (r : Reactor K) (x : Result (Reactor K))
      → ((fd : ℕ) → epoll.interest k fd ≡ none)
      → Reachable epoll k r
      → Step epoll r x
      → IsCalled x
  Reachable-IsCalled k r x empty reach s =
      let g = Step-Goes r x (Reachable-IsKept k r empty reach) s in
      record {
        after = g.after;
        returns = g.returns;
        all_called = λ phase. sym (
            g.kept.in_order
            ∙ ap (λ es. events_of g.after.called ++ es)
                (none_left g.kept.left (ap rest (sym phase) ∙ g.kept.left_is))
            ∙ append-nil (events_of g.after.called));
      }
