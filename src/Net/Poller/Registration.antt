-- ===== src/Net/Poller/Registration.antt =====
-- net/Poller.cpp: a channel's index and its flags agree with the interest list of epoll.
use rabbit_server.Prelude.{ℕ, ◌≡◌, ◌≢◌, refl, ap, sym, ◌∙◌, Option, none, some, arith, true, false}
use rabbit_server.Net.Channel.{
  Channel, Events, Index, new, added, no_event, enable_reading, disable_reading, enable_writing,
  disable_writing, disable_all,
}
use rabbit_server.Net.Poller.{
  Epoll, EpollEvent, add, del, mod', update_channel, update_in, remove_channel, remove_in, Change,
  reading_on, reading_off, writing_on, writing_off, all_off, removed, change,
}

-- What a change leaves of the flags.
abbrev pub set_events : Change → Events → Events
set_events reading_on e = record e { epollin = true; epollpri = true }
set_events reading_off e = record e { epollin = false; epollpri = false }
set_events writing_on e = record e { epollout = true }
set_events writing_off e = record e { epollout = false }
set_events all_off e = no_event
set_events removed e = no_event

-- What epoll then holds for the descriptor.
abbrev pub expected : Change → ℕ → Events → Option EpollEvent
expected removed p e = none
expected ch p e = some (p, set_events ch e)

module _ {K : Type 0} (epoll : Epoll K) (p : ℕ) where
  -- The index tells whether epoll knows the descriptor.
  pub data IsKnown (k : K) (c : Channel) : Type 0 where
    unknown : c.index ≡ new → epoll.interest k c.fd ≡ none → IsKnown k c
    known : (old : Events) → c.index ≡ added → epoll.interest k c.fd ≡ some (p, old) → IsKnown k c

  -- An update of a channel with the given flags.
  record Updated (k : K) (c : Channel) (k' : K) (c' : Channel) : Type 0 where
    index_eq : c'.index ≡ added
    fd_eq : c'.fd ≡ c.fd
    events_eq : c'.events ≡ c.events
    watched : epoll.interest k' c.fd ≡ some (p, c.events)
    others : (j : ℕ) → c.fd ≢ j → epoll.interest k' j ≡ epoll.interest k j

  update_in-Updated :
      (i : Index) (k : K) (c : Channel)
      → c.index ≡ i
      → IsKnown k c
      → Updated k c (update_in epoll p i k c).0 (update_in epoll p i k c).1
  unfolding update_in
  update_in-Updated new k c e (unknown _ h) = record {
    index_eq = refl;
    fd_eq = refl;
    events_eq = refl;
    watched = epoll.interest-add k c.fd (p, c.events) h;
    others = λ j. epoll.interest-other k add c.fd j (p, c.events);
  }
  update_in-Updated new k c e (known old i _) = ground arith
  update_in-Updated added k c e (unknown i _) = ground arith
  update_in-Updated added k c e (known old _ h) = record {
    index_eq = e;
    fd_eq = refl;
    events_eq = refl;
    watched = epoll.interest-mod k c.fd (p, c.events) (p, old) h;
    others = λ j. epoll.interest-other k mod' c.fd j (p, c.events);
  }

  update_channel-Updated :
      (k : K) (c : Channel)
      → IsKnown k c
      → Updated k c (update_channel epoll p k c).0 (update_channel epoll p k c).1
  unfolding update_channel
  update_channel-Updated k c h = update_in-Updated c.index k c refl h

  -- The same channel with other flags is as well known.
  reflag : (k : K) (c d : Channel) → d.index ≡ c.index → d.fd ≡ c.fd → IsKnown k c → IsKnown k d
  reflag k c d i f (unknown e h) = unknown (i ∙ e) (ap (epoll.interest k) f ∙ h)
  reflag k c d i f (known old e h) = known old (i ∙ e) (ap (epoll.interest k) f ∙ h)

  -- What a change leads to.
  pub record Tracks (ch : Change) (k : K) (c : Channel) (k' : K) (c' : Channel) : Type 0 where
    pub still_known : IsKnown k' c'
    pub fd_kept : c'.fd ≡ c.fd
    pub events_set : c'.events ≡ set_events ch c.events
    pub interest_set : epoll.interest k' c.fd ≡ expected ch p c.events
    pub others_kept : (j : ℕ) → c.fd ≢ j → epoll.interest k' j ≡ epoll.interest k j

  updated-Tracks :
      (ch : Change) (k : K) (c d : Channel)
      → d.index ≡ c.index
      → d.fd ≡ c.fd
      → d.events ≡ set_events ch c.events
      → expected ch p c.events ≡ some (p, set_events ch c.events)
      → IsKnown k c
      → Tracks ch k c (update_channel epoll p k d).0 (update_channel epoll p k d).1
  updated-Tracks ch k c d i f e x h =
      let u = update_channel-Updated k d (reflag k c d i f h) in
      record {
        still_known = known d.events u.index_eq (ap (epoll.interest _) u.fd_eq ∙ u.watched);
        fd_kept = u.fd_eq ∙ f;
        events_set = u.events_eq ∙ e;
        interest_set = ap (epoll.interest _) (sym f) ∙ u.watched ∙ ap (λ v. some (p, v)) e ∙ sym x;
        others_kept = λ j n. u.others j (λ q. n (sym f ∙ q));
      }

  remove_in-Tracks :
      (i : Index) (k k' : K) (c d : Channel)
      → d.index ≡ i
      → Updated k (disable_all c) k' d
      → Tracks removed k c (remove_in epoll p i k' d).0 (remove_in epoll p i k' d).1
  unfolding remove_in disable_all
  remove_in-Tracks new k k' c d e u = let bad = u.index_eq in ground arith
  remove_in-Tracks added k k' c d e u = record {
    still_known = unknown refl (epoll.interest-del k' d.fd (p, d.events));
    fd_kept = u.fd_eq;
    events_set = u.events_eq;
    interest_set = ap (epoll.interest _) (sym u.fd_eq) ∙ epoll.interest-del k' d.fd (p, d.events);
    others_kept = λ j n.
        epoll.interest-other k' del d.fd j (p, d.events) (λ q. n (sym u.fd_eq ∙ q)) ∙ u.others j n;
  }

  -- Each change of a channel reaches epoll, if the channel's index tells whether epoll knows its
  -- descriptor: epoll then watches the descriptor for the new flags with the channel's pointer, or
  -- not at all once the channel is removed; the index tells again; the other descriptors keep their
  -- flags.
  pub change-Tracks :
      (ch : Change) (k : K) (c : Channel)
      → IsKnown k c
      → Tracks ch k c (change epoll p ch k c).0 (change epoll p ch k c).1
  unfolding change enable_reading disable_reading enable_writing disable_writing disable_all
  change-Tracks reading_on k c h =
      updated-Tracks reading_on k c (enable_reading c) refl refl refl refl h
  change-Tracks reading_off k c h =
      updated-Tracks reading_off k c (disable_reading c) refl refl refl refl h
  change-Tracks writing_on k c h =
      updated-Tracks writing_on k c (enable_writing c) refl refl refl refl h
  change-Tracks writing_off k c h =
      updated-Tracks writing_off k c (disable_writing c) refl refl refl refl h
  change-Tracks all_off k c h = updated-Tracks all_off k c (disable_all c) refl refl refl refl h
  change-Tracks removed k c h =
      let u = update_channel-Updated k (disable_all c) (reflag k c (disable_all c) refl refl h) in
      unfold remove_channel in
      remove_in-Tracks (update_channel epoll p k (disable_all c)).1.index k
        (update_channel epoll p k (disable_all c)).0 c (update_channel epoll p k (disable_all c)).1
        refl u
