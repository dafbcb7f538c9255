-- ===== src/Net/TimerQueue/Order.antt =====
-- net/TimerQueue.cpp: the order of the multimap, and which timers have expired.
use rabbit_server.Prelude.{
  ℕ, ◌≤◌, ◌<◌, ◌≡◌, refl, ap, List, [], ◌∷◌, ◌++◌, inl, inr, arith, ltb, Bool-cases,
}
use rabbit_server.Net.TimerQueue.{TimerQueue, Entry, insert, front, rear, get_expired_timers}

-- The keys rise from a bound on.
abbrev pub AtLeast : ℕ → List Entry → Type 0
AtLeast b [] = Unit {0}
AtLeast b ((t, p) ∷ es) = (b ≤ t) × AtLeast t es

abbrev pub IsSorted : List Entry → Type 0
IsSorted es = AtLeast 0 es

abbrev pub AllBefore : ℕ → List Entry → Type 0
AllBefore now [] = Unit {0}
AllBefore now ((t, p) ∷ es) = (t < now) × AllBefore now es

abbrev pub AllFrom : ℕ → List Entry → Type 0
AllFrom now [] = Unit {0}
AllFrom now ((t, p) ∷ es) = (now ≤ t) × AllFrom now es

pub insert-AtLeast :
    (b t p : ℕ) (es : List Entry) → b ≤ t → AtLeast b es → AtLeast b (insert t p es)
unfolding insert
insert-AtLeast b t p [] h a = (h, tt)
insert-AtLeast b t p ((u, q) ∷ es) h a = elim (Bool-cases (ltb t u)) [
  | inl early ↦ rw early (h, (ground arith, a.1))
  | inr late ↦ rw late (a.0, insert-AtLeast u t p es (ground arith) a.1)
]

AtLeast-AllFrom : (now b : ℕ) (es : List Entry) → now ≤ b → AtLeast b es → AllFrom now es
AtLeast-AllFrom now b [] h a = tt
AtLeast-AllFrom now b ((t, p) ∷ es) h a = (omega arith, AtLeast-AllFrom now t es (omega arith) a.1)

AtLeast-lower : (b c : ℕ) (es : List Entry) → b ≤ c → AtLeast c es → AtLeast b es
AtLeast-lower b c [] h a = tt
AtLeast-lower b c ((t, p) ∷ es) h a = (omega arith, a.1)

-- The split at `lower_bound`.
record Splits (now b : ℕ) (es before_now from_now : List Entry) : Type 0 where
  whole : before_now ++ from_now ≡ es
  early : AllBefore now before_now
  late : AllFrom now from_now
  sorted : AtLeast b from_now

split-Splits :
    (now b : ℕ) (es : List Entry) → AtLeast b es → Splits now b es (front now es) (rear now es)
unfolding front rear
split-Splits now b [] a = record { whole = refl; early = tt; late = tt; sorted = tt }
split-Splits now b ((t, p) ∷ es) a = elim (Bool-cases (ltb t now)) [
  | inl early ↦
      let s = split-Splits now t es a.1 in
      rw early (record {
        whole = ap (◌∷◌ (t, p)) s.whole;
        early = (ground arith, s.early);
        late = s.late;
        sorted = AtLeast-lower b t (rear now es) a.0 s.sorted;
      })
  | inr late ↦ rw late (record {
    whole = refl;
    early = tt;
    late = (ground arith, AtLeast-AllFrom now t es (ground arith) a.1);
    sorted = a;
  })
]

-- On a queue with sorted keys, `getExpiredTimers` splits the entries in two without changing their
-- order: those that expire before now go to the expired list, and those that expire now or later
-- stay, sorted.
pub get_expired_timers_lem :
    (now : ℕ) (q : TimerQueue)
    → IsSorted q.timers
    → let q' = get_expired_timers now q in
      (q'.expired ++ q'.timers ≡ q.timers)
      × AllBefore now q'.expired
      × AllFrom now q'.timers
      × IsSorted q'.timers
unfolding get_expired_timers
get_expired_timers_lem now q h =
    let s = split-Splits now 0 q.timers h in (s.whole, s.early, s.late, s.sorted)
