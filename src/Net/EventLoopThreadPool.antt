-- ===== src/Net/EventLoopThreadPool.antt =====
-- net/EventLoopThreadPool.h and net/EventLoopThreadPool.cpp. A loop is a number. All calls come from
-- the thread of the base loop, so that `assertInLoopThread` holds. `start` takes the loops that the
-- threads give, in order.
pub mod RoundRobin
use rabbit_server.Prelude.{
  ℕ, zero, suc, ◌+◌, ◌%◌, Bool, true, false, Option, none, some, List, [], ◌∷◌, ◌++◌, if◌then◌else◌,
  leb, length, Result, ok, fault, assertion, out_of_bounds, ◌>>=◌,
}

pub record EventLoopThreadPool : Type 0 where
  pub base_loop : ℕ
  pub started : Bool
  pub num_threads : ℕ
  pub next : ℕ
  pub loops : List ℕ

-- The constructor.
abbrev pub new_pool : ℕ → EventLoopThreadPool
new_pool base_loop = record {
  base_loop = base_loop;
  started = false;
  num_threads = 0;
  next = 0;
  loops = [];
}

unfoldable pub set_thread_num : ℕ → EventLoopThreadPool → EventLoopThreadPool
set_thread_num n p = record p { num_threads = n }

-- The loops of the threads from a number on.
abbrev pub start_loops : (ℕ → ℕ) → ℕ → ℕ → List ℕ
start_loops start_loop i zero = []
start_loops start_loop i (suc n) = start_loop i ∷ start_loops start_loop (i + 1) n

unfoldable pub start : (ℕ → ℕ) → EventLoopThreadPool → Result EventLoopThreadPool
start start_loop p =
    if p.started
    then fault assertion
    else ok (record p { started = true; loops = p.loops ++ start_loops start_loop 0 p.num_threads })

-- `loops_[i]`.
abbrev pub at' : List ℕ → ℕ → Result ℕ
at' [] i = fault out_of_bounds
at' (l ∷ ls) zero = ok l
at' (l ∷ ls) (suc i) = at' ls i

abbrev is_empty : List ℕ → Bool
is_empty [] = true
is_empty (l ∷ ls) = false

unfoldable pub get_next_loop : EventLoopThreadPool → Result (ℕ × EventLoopThreadPool)
get_next_loop p =
    let chosen = at' p.loops p.next >>= λ l.
    ok (l, record p { next = if leb (length p.loops) (p.next + 1) then 0 else p.next + 1 }) in
    if p.started
    then (if is_empty p.loops then ok (p.base_loop, p) else chosen)
    else fault assertion

unfoldable pub get_loop_for_hash : ℕ → EventLoopThreadPool → Result ℕ
get_loop_for_hash hash p =
    if is_empty p.loops then ok p.base_loop else at' p.loops (hash % length p.loops)

unfoldable pub get_all_loops : EventLoopThreadPool → Result (List ℕ)
get_all_loops p =
    if p.started
    then ok (if is_empty p.loops then p.base_loop ∷ [] else p.loops)
    else fault assertion
