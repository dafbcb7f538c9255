-- ===== src/Net/EventLoop/Instances.antt =====
-- net/EventLoop.cpp: the loops that there are, and `t_loopInThisThread` of each thread. A thread and a
-- loop are numbers.
use rabbit_server.Prelude.{
  ℕ, ◌≡◌, refl, subst, sym, ◌∙◌, Bool, true, false, ◌==◌, if◌then◌else◌, Option, none, some, arith,
}

pub record Instances : Type 0 where
  pub loop_in_this_thread : ℕ → Option ℕ
  -- `threadId_` of the loops
  pub thread_id : ℕ → Option ℕ

abbrev pub no_instances : Instances
no_instances = record { loop_in_this_thread = λ t. none; thread_id = λ l. none }

abbrev pub set : ℕ → Option ℕ → (ℕ → Option ℕ) → ℕ → Option ℕ
set i v f j = if i == j then v else f j

-- The constructor of loop `l` in thread `t`: none if it throws.
unfoldable pub construct : ℕ → ℕ → Instances → Option Instances
construct t l s = elim (s.loop_in_this_thread t) [
  | none ↦ some (record {
    loop_in_this_thread = set t (some l) s.loop_in_this_thread;
    thread_id = set l (some t) s.thread_id;
  })
  | some other ↦ none
]

-- The destructor of loop `l`, called in thread `t`.
abbrev pub destroy : ℕ → ℕ → Instances → Instances
destroy t l s = record {
  loop_in_this_thread = set t none s.loop_in_this_thread;
  thread_id = set l none s.thread_id;
}

-- `isInLoopThread` of loop `l`, called in thread `t`.
abbrev pub is_in_loop_thread : ℕ → ℕ → Instances → Bool
is_in_loop_thread t l s = elim (s.thread_id l) [ none ↦ false | some owner ↦ owner == t ]

-- Loops are constructed, and destroyed in the thread that constructed them.
pub data Reachable : Instances → Type 0 where
  begin : Reachable no_instances
  constructs :
      {s s' : Instances} (t l : ℕ)
      → Reachable s
      → s.thread_id l ≡ none
      → construct t l s ≡ some s'
      → Reachable s'
  destroys :
      {s : Instances} (t l : ℕ) → Reachable s → s.thread_id l ≡ some t → Reachable (destroy t l s)

-- A loop is the one of its thread.
abbrev AreOwn : Instances → Type 0
AreOwn s = (t l : ℕ) → s.thread_id l ≡ some t → s.loop_in_this_thread t ≡ some l

construct_free :
    (t l : ℕ) (s : Instances) {s' : Instances}
    → construct t l s ≡ some s'
    → (s.loop_in_this_thread t ≡ none)
      × (s' ≡ record {
        loop_in_this_thread = set t (some l) s.loop_in_this_thread;
        thread_id = set l (some t) s.thread_id;
      })
unfolding construct
construct_free t l s e = ground (arith, e)

construct-AreOwn :
    (t l : ℕ) (s : Instances)
    → AreOwn s
    → s.loop_in_this_thread t ≡ none
    → AreOwn (record {
      loop_in_this_thread = set t (some l) s.loop_in_this_thread;
      thread_id = set l (some t) s.thread_id;
    })
construct-AreOwn t l s o free u m e = ground (arith, o u m)

destroy-AreOwn :
    (t l : ℕ) (s : Instances) → AreOwn s → s.thread_id l ≡ some t → AreOwn (destroy t l s)
destroy-AreOwn t l s o e u m h = ground (arith, o u m, o t l)

Reachable-AreOwn : (s : Instances) → Reachable s → AreOwn s
Reachable-AreOwn _ begin = λ t l e. cc
Reachable-AreOwn s' (constructs {s} t l r e c) =
    let (free, same) = construct_free t l s c in
    subst AreOwn (sym same) (construct-AreOwn t l s (Reachable-AreOwn s r) free)
Reachable-AreOwn _ (destroys {s} t l r e) = destroy-AreOwn t l s (Reachable-AreOwn s r) e

owned : (s : Instances) (t l : ℕ) → is_in_loop_thread t l s ≡ true → s.thread_id l ≡ some t
owned s t l h = ground (arith, h)

-- Whatever loops are constructed, and destroyed in their own threads: a thread is the thread of at
-- most one loop, and another construction in it throws as long as that loop is there.
pub Reachable-one_loop :
    (s : Instances) (t k l : ℕ)
    → Reachable s
    → is_in_loop_thread t k s ≡ true
    → ((is_in_loop_thread t l s ≡ true) → k ≡ l) × (construct t l s ≡ none)
unfolding construct
Reachable-one_loop s t k l r h =
    let own = Reachable-AreOwn s r in
    let there = own t k (owned s t k h) in
    (
      λ h'. let same : some k ≡ some l = sym there ∙ own t l (owned s t l h') in cc,
      rw (construct, there) refl,
    )
