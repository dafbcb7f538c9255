-- ===== src/Net/Reactor/Pointers.antt =====
-- net/EventLoop.cpp, net/Poller.cpp: the channels behind epoll's pointers and those of the active list.
use rabbit_server.Prelude.{
  ℕ, ◌≡◌, ◌≢◌, inl, inr, refl, ap, sym, ◌∙◌, subst, Option, some, List, [], ◌∷◌, ◌++◌, arith, ok,
  ◌>>=◌, ℕ-cases, append_assoc, append-nil,
}
use rabbit_server.Net.Channel.{Channel, Events, added}
use rabbit_server.Net.Poller.{EpollEvent, Heap, put, find, set_revents, fill_active_channels}
use rabbit_server.Net.Reactor.{pointers, IsAbsent, AreDistinct}

-- What is asked of a channel beside that the poller has it: its descriptor, or the events that it shows.
pub data Asked : Type 0 where
  nothing_more : Asked
  watching : ℕ → Asked
  showing : Events → Asked

abbrev pub IsAdded : Asked → Channel → Type 0
IsAdded nothing_more c = c.index ≡ added
IsAdded (watching fd) c = (c.index ≡ added) × (c.fd ≡ fd)
IsAdded (showing e) c = (c.index ≡ added) × (c.revents ≡ e)

-- There is such a channel behind the pointer.
abbrev pub IsThere : Asked → Heap → ℕ → Type 0
IsThere o h p = (c : Channel) × (h p ≡ some c) × IsAdded o c

abbrev pub AreThere : Heap → List ℕ → Type 0
AreThere h [] = Unit {0}
AreThere h (p ∷ ps) = IsThere nothing_more h p × AreThere h ps

-- Each channel shows its event.
abbrev pub AreShown : Heap → List EpollEvent → Type 0
AreShown h [] = Unit {0}
AreShown h ((p, e) ∷ es) = IsThere (showing e) h p × AreShown h es

-- What a change of the heap leaves there.
abbrev pub Keeps : Heap → Heap → Type 0
Keeps h h' = (o : Asked) (q : ℕ) → IsThere o h q → IsThere o h' q

pub put-same : (p : ℕ) (c : Option Channel) (h : Heap) → put p c h p ≡ c
put-same p c h = ground arith

put-other : (p q : ℕ) (c : Option Channel) (h : Heap) → p ≢ q → put p c h q ≡ h q
put-other p q c h n = ground (arith, n)

pub put_elsewhere :
    (o : Asked) (p q : ℕ) (x : Option Channel) (h : Heap)
    → p ≢ q
    → IsThere o h q
    → IsThere o (put p x h) q
put_elsewhere o p q x h n (c, e, a) = (c, put-other p q x h n ∙ e, a)

pub same_channel : {x : Option Channel} {c d : Channel} → x ≡ some c → x ≡ some d → c ≡ d
same_channel u v = ground (arith, u, v)

-- A new value for a channel.
put-IsThere :
    (o : Asked) (h : Heap) (p q : ℕ) (c c' : Channel)
    → h p ≡ some c
    → (IsAdded o c → IsAdded o c')
    → IsThere o h q
    → IsThere o (put p (some c') h) q
put-IsThere o h p q c c' there f (d, e, a) = elim (ℕ-cases p q) [
  | inr n ↦ put_elsewhere o p q (some c') h n (d, e, a)
  | inl same ↦ (
    c',
    ap (put p (some c') h) (sym same) ∙ put-same p (some c') h,
    f (subst (IsAdded o) (same_channel e (ap h (sym same) ∙ there)) a),
  )
]

pub put-Keeps :
    (h : Heap) (p : ℕ) (c c' : Channel)
    → h p ≡ some c
    → ((o : Asked) → IsAdded o c → IsAdded o c')
    → Keeps h (put p (some c') h)
put-Keeps h p c c' there f o q = put-IsThere o h p q c c' there (f o)

-- A channel that is not there, or that the poller does not have.
pub put_unknown-Keeps :
    (h : Heap) (p : ℕ) (x : Option Channel)
    → ((c : Channel) → h p ≡ some c → c.index ≢ added)
    → Keeps h (put p x h)
put_unknown-Keeps h p x f o q (d, e, a) = elim (ℕ-cases p q) [
  | inr n ↦ put_elsewhere o p q x h n (d, e, a)
  | inl same ↦ absurd (f d (ap h same ∙ e) (index_of o d a))
]
  where
    index_of : (o : Asked) (d : Channel) → IsAdded o d → d.index ≡ added
    index_of nothing_more d a = a
    index_of (watching fd) d a = a.0
    index_of (showing e) d a = a.0

pub AreShown-Keeps :
    (h h' : Heap) (es : List EpollEvent) → Keeps h h' → AreShown h es → AreShown h' es
AreShown-Keeps h h' [] k a = tt
AreShown-Keeps h h' ((p, e) ∷ es) k (a, bs) = (k (showing e) p a, AreShown-Keeps h h' es k bs)

-- A change of a channel that does not stand in a list.
AreThere-put :
    (p : ℕ) (x : Option Channel) (h : Heap) (ps : List ℕ)
    → IsAbsent p ps
    → AreThere h ps
    → AreThere (put p x h) ps
AreThere-put p x h [] n a = tt
AreThere-put p x h (q ∷ qs) (n, ns) (a, bs) =
    (put_elsewhere nothing_more p q x h n a, AreThere-put p x h qs ns bs)

pub AreShown-put :
    (p : ℕ) (x : Option Channel) (h : Heap) (es : List EpollEvent)
    → IsAbsent p (pointers es)
    → AreShown h es
    → AreShown (put p x h) es
AreShown-put p x h [] n a = tt
AreShown-put p x h ((q, e) ∷ es) (n, ns) (a, bs) =
    (put_elsewhere (showing e) p q x h n a, AreShown-put p x h es ns bs)

pub find-there : (p : ℕ) (h : Heap) (c : Channel) → h p ≡ some c → find p h ≡ ok c
unfolding find
find-there p h c e = ground (arith, e)

-- What `fillActiveChannels` leaves.
pub record Filled (es : List EpollEvent) (h : Heap) (active : List ℕ) : Type 0 where
  pub heap : Heap
  pub returns : fill_active_channels es (h, active) ≡ ok (heap, active ++ pointers es)
  pub watched : (fd q : ℕ) → IsThere (watching fd) h q → IsThere (watching fd) heap q
  pub shown : AreShown heap es
  pub others : (q : ℕ) → IsAbsent q (pointers es) → heap q ≡ h q

-- `fillActiveChannels` with pointers to channels, each once.
pub fill_active_channels-Filled :
    (es : List EpollEvent) (h : Heap) (active : List ℕ)
    → AreThere h (pointers es)
    → AreDistinct (pointers es)
    → Filled es h active
unfolding fill_active_channels
fill_active_channels-Filled [] h active a d = record {
  heap = h;
  returns = ap (λ x. ok (h, x)) (sym (append-nil active));
  watched = λ fd q x. x;
  shown = tt;
  others = λ q n. refl;
}
fill_active_channels-Filled ((p, e) ∷ es) h active ((c, there, ix), bs) (away, d) =
    let h1 = put p (some (set_revents e c)) h in
    let rest =
      fill_active_channels-Filled es h1 (active ++ p ∷ [])
        (AreThere-put p (some (set_revents e c)) h (pointers es) away bs) d in
    record {
      heap = rest.heap;
      returns =
          ap
            (λ r. r >>= λ c'.
              fill_active_channels es (put p (some (set_revents e c')) h, active ++ p ∷ []))
            (find-there p h c there)
          ∙ rest.returns
          ∙ ap (λ x. ok (rest.heap, x)) (append_assoc active (p ∷ []) (pointers es));
      watched = λ fd q x.
          rest.watched fd q (put-IsThere (watching fd) h p q c (set_revents e c) there (λ a. a) x);
      shown = (
        (set_revents e c, rest.others p away ∙ put-same p (some (set_revents e c)) h, (ix, refl)),
        rest.shown,
      );
      others =
          λ q n. rest.others q n.1 ∙ put-other p q (some (set_revents e c)) h (λ x. n.0 (sym x));
    }
