-- ===== src/Net/EventLoopThreadPool/RoundRobin.antt =====
-- net/EventLoopThreadPool.cpp: connections go to the loops in turn.
use native.Mathlib.Nat.{mod-eq_of_lt, mod_self, mod-lt, mod-add-mod, zero-mod}
use rabbit_server.Prelude.{
  ℕ, zero, suc, ◌+◌, ◌%◌, ◌<◌, ◌≡◌, ◌⊎◌, inl, inr, List, [], ◌∷◌, false, refl, ap, sym, ◌∙◌, true,
  arith, if◌then◌else◌, leb, length, Bool-cases, Result, ok, ◌>>=◌,
}
use rabbit_server.Net.EventLoopThreadPool.{
  EventLoopThreadPool, new_pool, set_thread_num, start_loops, start, at', is_empty, get_next_loop,
  get_loop_for_hash,
}

-- The loop of the thread that a number falls to, or the base loop if there is no thread.
abbrev pub loop_of : (ℕ → ℕ) → ℕ → ℕ → ℕ → ℕ
loop_of f base zero k = base
loop_of f base (suc n) k = f (k % suc n)

-- The loop that the call gives which comes after `k` others.
pub nth_call : ℕ → EventLoopThreadPool → Result (ℕ × EventLoopThreadPool)
nth_call zero p = get_next_loop p
nth_call (suc k) p = get_next_loop p >>= λ (l, p'). nth_call k p'

at-start_loops : (f : ℕ → ℕ) (i n k : ℕ) → k < n → at' (start_loops f i n) k ≡ ok (f (i + k))
at-start_loops f i zero k h = elim h [ ]
at-start_loops f i (suc n) zero h = ap (λ m. ok (f m)) (omega arith)
at-start_loops f i (suc n) (suc k) h =
    at-start_loops f (i + 1) n k (omega arith) ∙ ap (λ m. ok (f m)) (omega arith)

length-start_loops : (f : ℕ → ℕ) (i n : ℕ) → length (start_loops f i n) ≡ n
length-start_loops f i zero = refl
length-start_loops f i (suc n) = omega (arith, length-start_loops f (i + 1) n)

-- A started pool with these threads, and the next of them.
abbrev pool : (ℕ → ℕ) → ℕ → ℕ → ℕ → EventLoopThreadPool
pool f base n i = record {
  base_loop = base;
  started = true;
  num_threads = n;
  next = i;
  loops = start_loops f 0 n;
}

wrap_mod : (i n : ℕ) → i < n → (if leb n (i + 1) then 0 else i + 1) ≡ (i + 1) % n
wrap_mod i n h = elim (Bool-cases (leb n (i + 1))) [
  | inl full ↦ let e : i + 1 ≡ n = ground arith in rw full (sym (ap (λ m. m % n) e ∙ mod_self n))
  | inr part ↦ let e : i + 1 < n = ground arith in rw part (sym (mod-eq_of_lt e))
]

next_loop :
    (f : ℕ → ℕ) (base n i : ℕ)
    → i < n
    → get_next_loop (pool f base n i) ≡ ok (f i, pool f base n ((i + 1) % n))
unfolding get_next_loop
next_loop f base zero i h = elim h [ ]
next_loop f base (suc n) i h =
    ap
      (λ r. r >>= λ l. ok (
        l,
        record (pool f base (suc n) i) {
          next = if leb (length (start_loops f 0 (suc n))) (i + 1) then 0 else i + 1;
        },
      ))
      (at-start_loops f 0 (suc n) i h ∙ ap (λ m. ok (f m)) (omega arith))
    ∙ ap (λ m. ok (f i, pool f base (suc n) m))
        (ap (λ m. if leb m (i + 1) then 0 else i + 1) (length-start_loops f 0 (suc n))
          ∙ wrap_mod i (suc n) h)

nth_call_from :
    (f : ℕ → ℕ) (base n k j : ℕ)
    → 0 < n
    → nth_call k (pool f base n (j % n)) ≡ ok (f ((j + k) % n), pool f base n ((j + k + 1) % n))
unfolding nth_call
nth_call_from f base n zero j h =
    next_loop f base n (j % n) (mod-lt j h)
    ∙ ap (λ m. ok (f (j % n), pool f base n m)) (mod-add-mod j n 1)
    ∙ ap (λ m. ok (f (m % n), pool f base n ((m + 1) % n))) (omega arith)
nth_call_from f base n (suc k) j h =
    ap (λ r. r >>= λ (l, p'). nth_call k p') (next_loop f base n (j % n) (mod-lt j h))
    ∙ ap (λ m. nth_call k (pool f base n m)) (mod-add-mod j n 1)
    ∙ nth_call_from f base n k (j + 1) h
    ∙ ap (λ m. ok (f (m % n), pool f base n ((m + 1) % n))) (omega arith)

-- Without threads every call gives the base loop.
nth_call_base :
    (base k : ℕ) → let p = record (new_pool base) { started = true } in nth_call k p ≡ ok (base, p)
unfolding nth_call get_next_loop
nth_call_base base zero = refl
nth_call_base base (suc k) = nth_call_base base k

-- A pool that was made, given a number of threads and started gives its loops in turn: the call that
-- comes after k others gives the loop of thread k mod n, or the base loop without threads; no call
-- fails.
pub start-nth_call :
    (f : ℕ → ℕ) (base n k : ℕ)
    → (start f (set_thread_num n (new_pool base)) >>= λ p. nth_call k p >>= λ (l, p'). ok l)
      ≡ ok (loop_of f base n k)
unfolding start set_thread_num
start-nth_call f base zero k = ap (λ r. r >>= λ (l, p'). ok l) (nth_call_base base k)
start-nth_call f base (suc n) k =
    ap (λ r. r >>= λ (l, p'). ok l)
      (ap (λ i. nth_call k (pool f base (suc n) i)) (sym (zero-mod (suc n)))
        ∙ nth_call_from f base (suc n) k 0 (omega arith))
    ∙ ap (λ m. ok (f (m % suc n))) (omega arith)

-- In a started pool, `getLoopForHash` gives the loop of thread hash mod n, or the base loop without
-- threads; it never reads outside the vector.
pub start-get_loop_for_hash :
    (f : ℕ → ℕ) (base n hash : ℕ)
    → (start f (set_thread_num n (new_pool base)) >>= get_loop_for_hash hash)
      ≡ ok (loop_of f base n hash)
unfolding start set_thread_num get_loop_for_hash
start-get_loop_for_hash f base zero hash = refl
start-get_loop_for_hash f base (suc n) hash =
    ap (λ m. at' (start_loops f 0 (suc n)) (hash % m)) (length-start_loops f 0 (suc n))
    ∙ at-start_loops f 0 (suc n) (hash % suc n) (mod-lt hash (omega arith))
    ∙ ap (λ m. ok (f m)) (omega arith)

-- A pool whose next loop is there.
pub record IsReady (p : EventLoopThreadPool) : Type 0 where
  pub up : p.started ≡ true
  pub in_range : (p.loops ≡ []) ⊎ (p.next < length p.loops)

at-in_range : (ls : List ℕ) (i : ℕ) → i < length ls → (l : ℕ) × (at' ls i ≡ ok l)
at-in_range [] i h = absurd (omega arith)
at-in_range (l ∷ ls) zero h = (l, refl)
at-in_range (l ∷ ls) (suc i) h = at-in_range ls i (omega arith)

not_empty : (ls : List ℕ) (i : ℕ) → i < length ls → is_empty ls ≡ false
not_empty [] i h = absurd (omega arith)
not_empty (l ∷ ls) i h = refl

-- `getNextLoop` of a ready pool gives a loop and a ready pool.
pub get_next_loop-IsReady :
    (p : EventLoopThreadPool)
    → IsReady p
    → (l : ℕ) × (p' : EventLoopThreadPool) × (get_next_loop p ≡ ok (l, p')) × IsReady p'
unfolding get_next_loop
get_next_loop-IsReady p r = elim r.in_range [
  | inl none_there ↦ (p.base_loop, p, simp (r.up, none_there) refl, r)
  | inr found ↦
      let (l, e) = at-in_range p.loops p.next found in
      let next = if leb (length p.loops) (p.next + 1) then 0 else p.next + 1 in
      (
        l,
        record p { next = next },
        simp (r.up, not_empty p.loops p.next found, e) refl,
        record { up = r.up; in_range = inr (ground (arith, found)) },
      )
]
