-- ===== src/Net/TimerQueue/Heap.antt =====
-- net/TimerQueue.cpp: the entries of the multimap and the timers behind their pointers.
use rabbit_server.Prelude.{
  ℕ, ◌≡◌, ◌≢◌, refl, ap, sym, ◌∙◌, Option, none, some, List, [], ◌∷◌, ◌++◌, inl, inr, arith, ltb,
  Bool-cases, ==_iff,
}
use rabbit_server.Net.TimerQueue.{Timer, Entry, Heap, update, insert, front, rear}

-- The pointer stands in no entry.
abbrev pub Free : ℕ → List Entry → Type 0
Free p [] = Unit {0}
Free p ((t, q) ∷ es) = (q ≢ p) × Free p es

-- No pointer stands twice in the two lists.
abbrev pub Apart : List Entry → List Entry → Type 0
Apart [] [] = Unit {0}
Apart [] ((t, p) ∷ ts) = Free p ts × Apart [] ts
Apart ((t, p) ∷ es) ts = Free p es × Free p ts × Apart es ts

-- Each pointer leads to a timer that expires at its key; the timers are listed.
abbrev pub Live : Heap → List Entry → List Timer → Type 0
Live h [] [] = Unit {0}
Live h [] (t ∷ ts) = ⊥
Live h (e ∷ es) [] = ⊥
Live h ((u, p) ∷ es) (t ∷ ts) = (h p ≡ some t) × (t.expiration ≡ u) × Live h es ts

pub update-same : (h : Heap) (p : ℕ) (t : Option Timer) → update h p t p ≡ t
update-same h p t = rw ((==_iff p p).1 refl)

pub update-other : (h : Heap) (p q : ℕ) (t : Option Timer) → q ≢ p → update h p t q ≡ h q
update-other h p q t n = ground (arith, n)

-- A change at a pointer that stands nowhere in the list.
pub update-Live :
    (h : Heap) (p : ℕ) (t : Option Timer) (es : List Entry) (ts : List Timer)
    → Free p es
    → Live h es ts
    → Live (update h p t) es ts
update-Live h p t [] [] f l = tt
update-Live h p t [] (x ∷ ts) f l = l
update-Live h p t ((u, q) ∷ es) [] f l = l
update-Live h p t ((u, q) ∷ es) (x ∷ ts) f l =
    (update-other h p q t f.0 ∙ l.0, l.1, update-Live h p t es ts f.1 l.2)

pub insert-Free : (t p q : ℕ) (es : List Entry) → p ≢ q → Free q es → Free q (insert t p es)
unfolding insert
insert-Free t p q [] n f = (n, tt)
insert-Free t p q ((u, r) ∷ es) n f = elim (Bool-cases (ltb t u)) [
  | inl early ↦ rw early (n, f)
  | inr late ↦ rw late (f.0, insert-Free t p q es n f.1)
]

pub insert-Apart_nil :
    (t p : ℕ) (ts : List Entry) → Free p ts → Apart [] ts → Apart [] (insert t p ts)
unfolding insert
insert-Apart_nil t p [] f a = (tt, tt)
insert-Apart_nil t p ((u, r) ∷ ts) f a = elim (Bool-cases (ltb t u)) [
  | inl early ↦ rw early (f, a)
  | inr late ↦
      rw late (insert-Free t p r ts (λ e. f.0 (sym e)) a.0, insert-Apart_nil t p ts f.1 a.1)
]

pub insert-Apart :
    (t p : ℕ) (es ts : List Entry) → Free p es → Free p ts → Apart es ts → Apart es (insert t p ts)
insert-Apart t p [] ts fe ft a = insert-Apart_nil t p ts ft a
insert-Apart t p ((u, r) ∷ es) ts fe ft a =
    (a.0, insert-Free t p r ts (λ e. fe.0 (sym e)) a.1, insert-Apart t p es ts fe.1 ft a.2)

-- The timers, with one put in at its place.
pub insert-Live :
    (h : Heap) (p : ℕ) (t : Timer) (es : List Entry) (ts : List Timer)
    → h p ≡ some t
    → Live h es ts
    → (ts' : List Timer) × Live h (insert t.expiration p es) ts'
unfolding insert
insert-Live h p t [] [] e l = (t ∷ [], (e, refl, tt))
insert-Live h p t [] (x ∷ ts) e l = absurd l
insert-Live h p t ((u, q) ∷ es) [] e l = absurd l
insert-Live h p t ((u, q) ∷ es) (x ∷ ts) e l = elim (Bool-cases (ltb t.expiration u)) [
  | inl early ↦ (t ∷ x ∷ ts, rw early (e, refl, l))
  | inr late ↦ let (ts', l') = insert-Live h p t es ts e l.2 in (x ∷ ts', rw late (l.0, l.1, l'))
]

pub rear-Free :
    (now p : ℕ) (es : List Entry) → Free p es → Free p (front now es) × Free p (rear now es)
unfolding front rear
rear-Free now p [] f = (tt, tt)
rear-Free now p ((u, q) ∷ es) f = elim (Bool-cases (ltb u now)) [
  | inl early ↦ let r = rear-Free now p es f.1 in rw early ((f.0, r.0), r.1)
  | inr late ↦ rw late (tt, f)
]

pub split-Apart : (now : ℕ) (es : List Entry) → Apart [] es → Apart (front now es) (rear now es)
unfolding front rear
split-Apart now [] a = tt
split-Apart now ((u, q) ∷ es) a = elim (Bool-cases (ltb u now)) [
  | inl early ↦ let f = rear-Free now q es a.0 in rw early (f.0, f.1, split-Apart now es a.1)
  | inr late ↦ rw late a
]

-- The timers behind the two parts.
pub record Parts (h : Heap) (fs rs : List Entry) (ts : List Timer) : Type 0 where
  pub early : List Timer
  pub late : List Timer
  pub whole : early ++ late ≡ ts
  pub early_live : Live h fs early
  pub late_live : Live h rs late

pub split-Parts :
    (h : Heap) (now : ℕ) (es : List Entry) (ts : List Timer)
    → Live h es ts
    → Parts h (front now es) (rear now es) ts
unfolding front rear
split-Parts h now [] [] l = record {
  early = [];
  late = [];
  whole = refl;
  early_live = tt;
  late_live = tt;
}
split-Parts h now [] (t ∷ ts) l = absurd l
split-Parts h now (e ∷ es) [] l = absurd l
split-Parts h now ((u, q) ∷ es) (t ∷ ts) l = elim (Bool-cases (ltb u now)) [
  | inl early ↦
      let s = split-Parts h now es ts l.2 in
      rw early (record {
        early = t ∷ s.early;
        late = s.late;
        whole = ap (◌∷◌ t) s.whole;
        early_live = (l.0, l.1, s.early_live);
        late_live = s.late_live;
      })
  | inr late ↦
      rw late (record { early = []; late = t ∷ ts; whole = refl; early_live = tt; late_live = l })
]

-- A pointer with no timer behind it stands in no entry.
pub unused-Free :
    (h : Heap) (p : ℕ) (es : List Entry) (ts : List Timer) → h p ≡ none → Live h es ts → Free p es
unused-Free h p [] ts e l = tt
unused-Free h p (x ∷ es) [] e l = absurd l
unused-Free h p ((u, q) ∷ es) (t ∷ ts) e l = (
  λ same. let clash : none ≡ some t = sym e ∙ ap h (sym same) ∙ l.0 in cc,
  unused-Free h p es ts e l.2,
)
