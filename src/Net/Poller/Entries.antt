-- ===== src/Net/Poller/Entries.antt =====
-- net/Poller.cpp: whose entries are in epoll's interest list after the changes of a channel.
use rabbit_server.Prelude.{
  ℕ, ◌≡◌, ◌≢◌, ◌⊎◌, inl, inr, refl, ap, sym, ◌∙◌, Option, none, some, arith, Option-cases, ℕ-cases,
}
use rabbit_server.Net.Channel.{
  Channel, Events, Index, new, added, enable_reading, disable_reading, enable_writing,
  disable_writing, disable_all,
}
use rabbit_server.Net.Poller.{
  Epoll, EpollEvent, add, del, mod', update_channel, update_in, remove_channel, remove_in, Change,
  reading_on, reading_off, writing_on, writing_off, all_off, removed, change,
}

module _ {K : Type 0} (epoll : Epoll K) (p : ℕ) where
  -- An entry is the channel's own, or it was there.
  pub record AreAdded (k : K) (c : Channel) (k' : K) (c' : Channel) : Type 0 where
    pub index_eq : c'.index ≡ added
    pub fd_eq : c'.fd ≡ c.fd
    pub revents_eq : c'.revents ≡ c.revents
    pub own_or_old :
        (fd q : ℕ) (e : Events)
        → epoll.interest k' fd ≡ some (q, e)
        → ((q ≡ p) × (fd ≡ c.fd)) ⊎ (epoll.interest k fd ≡ some (q, e))

  own :
      {q : ℕ} {e f : Events}
      → let x : EpollEvent = (p, f) in let y : EpollEvent = (q, e) in some x ≡ some y → q ≡ p
  own h = ground arith

  nothing : {o : Option EpollEvent} {e : EpollEvent} → o ≡ none → o ≡ some e → ⊥
  nothing {o} {e} x y = ground (arith, x, y)

  update_in-entry :
      (i : Index) (k : K) (c : Channel) (q : ℕ) (e : Events)
      → epoll.interest (update_in epoll p i k c).0 c.fd ≡ some (q, e)
      → (q ≡ p) ⊎ (epoll.interest k c.fd ≡ some (q, e))
  unfolding update_in
  update_in-entry new k c q e h = elim (Option-cases (epoll.interest k c.fd)) [
    | inl free ↦ inl (own (sym (epoll.interest-add k c.fd (p, c.events) free) ∙ h))
    | inr (old, there) ↦
        inr (there ∙ sym (epoll.interest-add_again k c.fd (p, c.events) old there) ∙ h)
  ]
  update_in-entry added k c q e h = elim (Option-cases (epoll.interest k c.fd)) [
    | inl free ↦ absurd (nothing (epoll.interest-mod_absent k c.fd (p, c.events) free) h)
    | inr (old, there) ↦ inl (own (sym (epoll.interest-mod k c.fd (p, c.events) old there) ∙ h))
  ]

  update_in-other :
      (i : Index) (k : K) (c : Channel) (fd : ℕ)
      → c.fd ≢ fd
      → epoll.interest (update_in epoll p i k c).0 fd ≡ epoll.interest k fd
  unfolding update_in
  update_in-other new k c fd n = epoll.interest-other k add c.fd fd (p, c.events) n
  update_in-other added k c fd n = epoll.interest-other k mod' c.fd fd (p, c.events) n

  update_in-kept :
      (i : Index) (k : K) (c : Channel)
      → c.index ≡ i
      → let c' = (update_in epoll p i k c).1 in
        (c'.index ≡ added) × (c'.fd ≡ c.fd) × (c'.revents ≡ c.revents)
  unfolding update_in
  update_in-kept new k c x = (refl, refl, refl)
  update_in-kept added k c x = (x, refl, refl)

  update_in-AreAdded :
      (i : Index) (k : K) (c : Channel)
      → c.index ≡ i
      → AreAdded k c (update_in epoll p i k c).0 (update_in epoll p i k c).1
  update_in-AreAdded i k c x = record {
    index_eq = (update_in-kept i k c x).0;
    fd_eq = (update_in-kept i k c x).1;
    revents_eq = (update_in-kept i k c x).2;
    own_or_old = λ fd q e h. elim (ℕ-cases c.fd fd) [
      | inr other ↦ inr (sym (update_in-other i k c fd other) ∙ h)
      | inl same ↦
          elim (update_in-entry i k c q e
            (ap (epoll.interest (update_in epoll p i k c).0) same ∙ h)) [
              | inl mine ↦ inl (mine, sym same)
              | inr old ↦ inr (ap (epoll.interest k) (sym same) ∙ old)
            ]
    ];
  }

  update_channel-AreAdded :
      (k : K) (c : Channel)
      → AreAdded k c (update_channel epoll p k c).0 (update_channel epoll p k c).1
  unfolding update_channel
  update_channel-AreAdded k c = update_in-AreAdded c.index k c refl

  -- The same with other flags.
  reflagged :
      (k : K) (c d : Channel)
      → d.fd ≡ c.fd
      → d.revents ≡ c.revents
      → AreAdded k c (update_channel epoll p k d).0 (update_channel epoll p k d).1
  reflagged k c d f v =
      let a = update_channel-AreAdded k d in
      record {
        index_eq = a.index_eq;
        fd_eq = a.fd_eq ∙ f;
        revents_eq = a.revents_eq ∙ v;
        own_or_old = λ fd q e h. elim (a.own_or_old fd q e h) [
          | inl (mine, at) ↦ inl (mine, at ∙ f)
          | inr old ↦ inr old
        ];
      }

  -- Whatever epoll answers, a change that is not a removal leaves a channel that the poller has.
  pub change-AreAdded :
      (ch : Change) (k : K) (c : Channel)
      → ch ≢ removed
      → AreAdded k c (change epoll p ch k c).0 (change epoll p ch k c).1
  unfolding change enable_reading disable_reading enable_writing disable_writing disable_all
  change-AreAdded reading_on k c n = reflagged k c (enable_reading c) refl refl
  change-AreAdded reading_off k c n = reflagged k c (disable_reading c) refl refl
  change-AreAdded writing_on k c n = reflagged k c (enable_writing c) refl refl
  change-AreAdded writing_off k c n = reflagged k c (disable_writing c) refl refl
  change-AreAdded all_off k c n = reflagged k c (disable_all c) refl refl
  change-AreAdded removed k c n = absurd (n refl)

  -- A removal leaves no entry for the descriptor, and adds none.
  pub record IsGone (k : K) (c : Channel) (k' : K) (c' : Channel) : Type 0 where
    pub fd_kept : c'.fd ≡ c.fd
    pub old_only :
        (fd q : ℕ) (e : Events)
        → epoll.interest k' fd ≡ some (q, e)
        → (c.fd ≢ fd) × (epoll.interest k fd ≡ some (q, e))

  remove_in-IsGone :
      (i : Index) (k k' : K) (c d : Channel)
      → d.index ≡ i
      → AreAdded k c k' d
      → IsGone k c (remove_in epoll p i k' d).0 (remove_in epoll p i k' d).1
  unfolding remove_in
  remove_in-IsGone new k k' c d x a = let bad = a.index_eq in ground arith
  remove_in-IsGone added k k' c d x a =
      let without = epoll.ctl del d.fd (p, d.events) k' in
      let none_there : (fd q : ℕ) (e : Events)
          → epoll.interest without fd ≡ some (q, e)
          → c.fd ≢ fd =
        λ fd q e h same.
          nothing (epoll.interest-del k' d.fd (p, d.events))
            (ap (epoll.interest without) (a.fd_eq ∙ same) ∙ h) in
      record {
        fd_kept = a.fd_eq;
        old_only = λ fd q e h.
            let n = none_there fd q e h in
            let before =
              sym (epoll.interest-other k' del d.fd fd (p, d.events) (λ s. n (sym a.fd_eq ∙ s)))
              ∙ h in
            (
              n,
              elim (a.own_or_old fd q e before) [
                | inl (mine, at) ↦ absurd (n (sym at))
                | inr old ↦ old
              ],
            );
      }

  pub removed-IsGone :
      (k : K) (c : Channel)
      → IsGone k c (change epoll p removed k c).0 (change epoll p removed k c).1
  unfolding change remove_channel disable_all
  removed-IsGone k c =
      let u = update_channel epoll p k (disable_all c) in
      remove_in-IsGone u.1.index k u.0 c u.1 refl (reflagged k c (disable_all c) refl refl)
