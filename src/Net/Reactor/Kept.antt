-- ===== src/Net/Reactor/Kept.antt =====
-- net/EventLoop.cpp, net/Poller.cpp: what each step keeps of the channels behind the pointers.
use rabbit_server.Prelude.{
  ℕ, ◌≡◌, ◌≢◌, Bool, ◌==◌, ◌*◌, length, if◌then◌else◌, ℕ-cases, inl, inr, refl, ap, ap₂, sym, ◌∙◌,
  subst, Option, none, some, List, [], ◌∷◌, ◌++◌, arith, Result, ok, ◌>>=◌,
}
use rabbit_server.Net.Channel.{Channel, Events, Callback, added, handle_event}
use rabbit_server.Net.Poller.{
  Epoll, EpollEvent, Heap, put, poll, ready, wait_failed, WaitOutcome, Change, removed, change,
}
use rabbit_server.Net.Poller.Entries.{change-AreAdded, removed-IsGone}
use rabbit_server.Net.Reactor.Pointers.{
  Asked, nothing_more, watching, showing, IsAdded, IsThere, AreThere, AreShown, Keeps, put-Keeps,
  AreShown-Keeps, AreShown-put, put-same, put_elsewhere, same_channel, find-there,
  fill_active_channels-Filled,
}
use rabbit_server.Net.Reactor.{
  Reactor, Phase, handling, AreHeld, pointers, IsAbsent, AreDistinct, IsPromised, begin_round,
  handle_next, change_channel,
}

abbrev pub rest : Phase → List ℕ
rest (handling ps) = ps
rest _ = []

-- The events with which the channels were called.
abbrev pub events_of : List (ℕ × Events × List Callback) → List EpollEvent
events_of [] = []
events_of ((p, e, ks) ∷ cs) = (p, e) ∷ events_of cs

events_of-append :
    (cs : List (ℕ × Events × List Callback)) (p : ℕ) (e : Events) (ks : List Callback)
    (es : List EpollEvent)
    → events_of (cs ++ (p, e, ks) ∷ []) ++ es ≡ events_of cs ++ (p, e) ∷ es
events_of-append [] p e ks es = refl
events_of-append ((q, f, js) ∷ cs) p e ks es = ap (λ x. (q, f) ∷ x) (events_of-append cs p e ks es)

pub nothing : {A : Type 0} {x : Option A} {a : A} → x ≡ none → x ≡ some a → ⊥
nothing {A} {x} {a} u v = ground (arith, u, v)

same_some : {p q : ℕ} → some p ≡ some q → p ≡ q
same_some {p} {q} e = ground (arith, e)

module _ {K : Type 0} (epoll : Epoll K) where
  -- A pointer in epoll's list, for a descriptor, leads to a channel with that descriptor; and one in
  -- the rest of the active list to a channel that the poller has and that shows the event that epoll
  -- gave for it. No channel stands there twice, nor does the one that is handled.
  pub record IsKept (r : Reactor K) : Type 0 where
    pub entries :
        (fd p : ℕ) (e : Events)
        → epoll.interest r.interest fd ≡ some (p, e)
        → IsThere (watching fd) r.heap p
    pub left : List EpollEvent
    pub left_is : rest r.phase ≡ pointers left
    pub active : AreShown r.heap left
    pub in_order : r.reported ≡ events_of r.called ++ left
    pub distinct : AreDistinct (pointers left)
    pub apart : (p : ℕ) → r.current ≡ some p → IsAbsent p (pointers left)

  pub record Goes (x : Result (Reactor K)) : Type 0 where
    pub after : Reactor K
    pub returns : x ≡ ok after
    pub kept : IsKept after

  -- A change of the heap alone.
  pub heap-IsKept :
      (r : Reactor K) (h : Heap) → IsKept r → Keeps r.heap h → IsKept (record r { heap = h })
  heap-IsKept r h k keeps = record {
    entries = λ fd p e x. keeps (watching fd) p (k.entries fd p e x);
    left = k.left;
    left_is = k.left_is;
    active = AreShown-Keeps r.heap h k.left keeps k.active;
    in_order = k.in_order;
    distinct = k.distinct;
    apart = k.apart;
  }

  held-AreThere :
      (r : Reactor K) (es : List EpollEvent)
      → IsKept r
      → AreHeld epoll r.interest es
      → AreThere r.heap (pointers es)
  held-AreThere r [] k hs = tt
  held-AreThere r ((p, e) ∷ es) k ((fd, f, x), hs) =
      let (c, there, a) = k.entries fd p f x in ((c, there, a.0), held-AreThere r es k hs)

  pub begin_round-Goes :
      (o : WaitOutcome) (r : Reactor K)
      → IsKept r
      → IsPromised epoll r.interest o
      → Goes (begin_round o r)
  unfolding begin_round poll
  begin_round-Goes wait_failed r k h = record {
    after = record r { phase = handling []; current = none; reported = []; called = [] };
    returns = refl;
    kept = record {
      entries = k.entries;
      left = [];
      left_is = refl;
      active = tt;
      in_order = refl;
      distinct = tt;
      apart = λ p e. tt;
    };
  }
  begin_round-Goes (ready es) r k h =
      let f = fill_active_channels-Filled es r.heap [] (held-AreThere r es k h.0) h.1 in
      record {
        after = record r {
          heap = f.heap;
          room = if r.room == length es then length es * 2 else r.room;
          phase = handling (pointers es);
          current = none;
          reported = es;
          called = [];
        };
        returns =
            ap
              (λ (x : Result (Heap × List ℕ)).
                (x >>= λ s. ok (if r.room == length es then length es * 2 else r.room, s))
                >>= λ (room, (heap, active)). ok (record r {
                  heap = heap;
                  room = room;
                  phase = handling active;
                  current = none;
                  reported = es;
                  called = [];
                }))
              f.returns;
        kept = record {
          entries = λ fd p e x. f.watched fd p (k.entries fd p e x);
          left = es;
          left_is = refl;
          active = f.shown;
          in_order = refl;
          distinct = h.1;
          apart = λ p e. absurd (nothing refl e);
        };
      }

  handle_first :
      (alive : Bool) (p : ℕ) (ps : List ℕ) (r : Reactor K)
      → (k : IsKept r) → p ∷ ps ≡ pointers k.left
      → (es : List EpollEvent) → k.left ≡ es
      → Goes (handle_next alive p ps r)
  unfolding handle_next
  handle_first alive p ps r k e [] l =
      let none_left : p ∷ ps ≡ [] = e ∙ ap pointers l in ground (arith, none_left)
  handle_first alive p ps r k e ((q, f) ∷ es) l =
      let both : p ∷ ps ≡ q ∷ pointers es = e ∙ ap pointers l in
      let same : p ≡ q = cc in
      let others : ps ≡ pointers es = cc in
      let ((c, there, (_, shown)), active) = subst (AreShown r.heap) l k.active in
      let apart = subst (λ z. AreDistinct (pointers z)) l k.distinct in
      let called = r.called ++ (p, c.revents, handle_event alive c) ∷ [] in
      record {
        after = record r { phase = handling ps; current = some p; called = called };
        returns =
            ap
              (λ x. x >>= λ c'. ok (record r {
                phase = handling ps;
                current = some p;
                called = r.called ++ (p, c'.revents, handle_event alive c') ∷ [];
              }))
              (find-there p r.heap c (ap r.heap same ∙ there));
        kept = record {
          entries = k.entries;
          left = es;
          left_is = others;
          active = active;
          in_order =
              k.in_order
              ∙ ap (λ z. events_of r.called ++ z) l
              ∙ ap₂ (λ z v. events_of r.called ++ (z, v) ∷ es) (sym same) (sym shown)
              ∙ sym (events_of-append r.called p c.revents (handle_event alive c) es);
          distinct = apart.1;
          apart = λ z e'. subst (λ z. IsAbsent z (pointers es)) (sym same ∙ same_some e') apart.0;
        };
      }

  pub handle_next-Goes :
      (alive : Bool) (p : ℕ) (ps : List ℕ) (r : Reactor K)
      → IsKept r
      → r.phase ≡ handling (p ∷ ps)
      → Goes (handle_next alive p ps r)
  handle_next-Goes alive p ps r k e =
      handle_first alive p ps r k (ap rest (sym e) ∙ k.left_is) k.left refl

  stays_added :
      (c c' : Channel)
      → c'.index ≡ added
      → c'.revents ≡ c.revents
      → c'.fd ≡ c.fd
      → (o : Asked) → IsAdded o c
      → IsAdded o c'
  stays_added c c' i v f nothing_more a = i
  stays_added c c' i v f (watching fd) (_, at) = (i, f ∙ at)
  stays_added c c' i v f (showing e) (_, shown) = (i, v ∙ shown)

  pub same_fields :
      (c c' : Channel)
      → c'.index ≡ c.index
      → c'.revents ≡ c.revents
      → c'.fd ≡ c.fd
      → (o : Asked) → IsAdded o c
      → IsAdded o c'
  same_fields c c' i v f nothing_more a = i ∙ a
  same_fields c c' i v f (watching fd) (a, at) = (i ∙ a, f ∙ at)
  same_fields c c' i v f (showing e) (a, shown) = (i ∙ a, v ∙ shown)

  pub change-IsKept :
      (ch : Change) (p : ℕ) (c : Channel) (r : Reactor K)
      → IsKept r
      → ch ≢ removed
      → r.heap p ≡ some c
      → IsKept (change_channel epoll ch p c r)
  unfolding change_channel
  change-IsKept ch p c r k n e =
      let a = change-AreAdded epoll p ch r.interest c n in
      let c' = (change epoll p ch r.interest c).1 in
      let h = put p (some c') r.heap in
      let keeps = put-Keeps r.heap p c c' e (stays_added c c' a.index_eq a.revents_eq a.fd_eq) in
      record {
        entries = λ fd q f x. elim (a.own_or_old fd q f x) [
          | inr old ↦ keeps (watching fd) q (k.entries fd q f old)
          | inl (mine, at) ↦
              subst (IsThere (watching fd) h) (sym mine)
                (c', put-same p (some c') r.heap, (a.index_eq, a.fd_eq ∙ sym at))
        ];
        left = k.left;
        left_is = k.left_is;
        active = AreShown-Keeps r.heap h k.left keeps k.active;
        in_order = k.in_order;
        distinct = k.distinct;
        apart = k.apart;
      }

  pub remove-IsKept :
      (p : ℕ) (c : Channel) (r : Reactor K)
      → (k : IsKept r) → IsAbsent p (pointers k.left)
      → r.heap p ≡ some c
      → IsKept (change_channel epoll removed p c r)
  unfolding change_channel
  remove-IsKept p c r k away e =
      let g = removed-IsGone epoll p r.interest c in
      let c' = (change epoll p removed r.interest c).1 in
      record {
        entries = λ fd q f x.
            let (n, old) = g.old_only fd q f x in
            let (d, there, (ix, at)) = k.entries fd q f old in
            elim (ℕ-cases p q) [
              | inr other ↦
                  put_elsewhere (watching fd) p q (some c') r.heap other (d, there, (ix, at))
              | inl same ↦
                  absurd
                    (n (ap (λ (z : Channel). z.fd) (same_channel e (ap r.heap same ∙ there)) ∙ at))
            ];
        left = k.left;
        left_is = k.left_is;
        active = AreShown-put p (some c') r.heap k.left away k.active;
        in_order = k.in_order;
        distinct = k.distinct;
        apart = k.apart;
      }

  pub phase-IsKept :
      (r : Reactor K) (ph : Phase)
      → IsKept r
      → rest r.phase ≡ []
      → rest ph ≡ []
      → IsKept (record r { phase = ph })
  phase-IsKept r ph k old now = record {
    entries = k.entries;
    left = k.left;
    left_is = now ∙ sym old ∙ k.left_is;
    active = k.active;
    in_order = k.in_order;
    distinct = k.distinct;
    apart = k.apart;
  }
