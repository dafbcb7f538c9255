-- ===== src/Net/TimerQueue/Ownership.antt =====
-- net/TimerQueue.cpp: every timer in the queue is alive and stands there once, so that no handler
-- touches a deleted timer.
use rabbit_server.Prelude.{
  ℕ, ◌+◌, ◌≡◌, Bool, true, false, length, refl, ap, sym, ◌∙◌, none, some, List, [], ◌∷◌, ◌++◌, inl,
  inr, if◌then◌else◌, Bool-cases, map, Result, ok, ◌>>=◌, append_assoc, append-nil,
}
use rabbit_server.Net.TimerQueue.Order.{get_expired_timers_lem}
use rabbit_server.Net.TimerQueue.{
  Timer, TimerQueue, Additions, Entry, run_callback, update, reset, add_timer, front, rear,
  get_expired_timers, reset_timer, reset_timers, handle_read,
}
use rabbit_server.Net.TimerQueue.Heap.{Live, split-Apart, split-Parts, update-Live, update-same}
use rabbit_server.Net.TimerQueue.Adding.{IsOwned, Added, add_timer-Added, add_all-Added}

-- What one round leaves.
record Round (es : List Entry) (waiting : List Timer) (t : Timer) (q : TimerQueue)
    (r : Result TimerQueue) : Type 0 where
  after : TimerQueue
  returns : r ≡ ok after
  owned : IsOwned es waiting after
  recorded : after.ran ≡ q.ran ++ t.callback ∷ []

module _ (added : Additions) where
  run_callback-Added :
      (f : ℕ) (es : List Entry) (waiting : List Timer) (q : TimerQueue)
      → IsOwned es waiting q
      → Added es waiting (q.ran ++ f ∷ []) (run_callback added f q)
  unfolding run_callback
  run_callback-Added f es waiting q o =
      add_all-Added (added (length q.ran) f) es waiting (record q { ran = q.ran ++ f ∷ [] })
        (record {
          present = o.present;
          apart = o.apart;
          waiting_live = o.waiting_live;
          present_live = o.present_live;
          sorted = o.sorted;
        })

  -- A round is the callback, and then a reset or a deletion.
  pub turn :
      (now later p : ℕ) (t : Timer) (q : TimerQueue) (b : Bool)
      → q.heap p ≡ some t
      → t.repeat ≡ b
      → let called = run_callback added t.callback q in
        let t' = reset now t in
        reset_timer added now later p q
        ≡ ok (
            if b
            then (add_timer later p t' (record called { heap = update called.heap p (some t') })).0
            else record called { heap = update called.heap p none })
  unfolding reset_timer
  turn now later p t q b e s =
      let called = run_callback added t.callback q in
      let t' = reset now t in
      rw (e, reset_timer)
        (ap
          (λ x. ok (
            if x
            then (add_timer later p t' (record called { heap = update called.heap p (some t') })).0
            else record called { heap = update called.heap p none }))
          s)

  reset_timer-Round :
      (now later u p : ℕ) (es : List Entry) (t : Timer) (waiting : List Timer) (q : TimerQueue)
      → IsOwned ((u, p) ∷ es) (t ∷ waiting) q
      → Round es waiting t q (reset_timer added now later p q)
  reset_timer-Round now later u p es t waiting q o =
      let called = run_callback added t.callback q in
      let c = run_callback-Added t.callback ((u, p) ∷ es) (t ∷ waiting) q o in
      let o' = c.owned in
      elim (Bool-cases t.repeat) [
        | inr once ↦ record {
          after = record called { heap = update called.heap p none };
          returns = turn now later p t q false o.waiting_live.0 once;
          owned = record {
            present = o'.present;
            apart = o'.apart.2;
            waiting_live = update-Live called.heap p none es waiting o'.apart.0 o'.waiting_live.2;
            present_live =
                update-Live called.heap p none called.timers o'.present o'.apart.1 o'.present_live;
            sorted = o'.sorted;
          };
          recorded = c.recorded;
        }
        | inl again ↦
            let t' = reset now t in
            let r = record called { heap = update called.heap p (some t') } in
            let a =
              add_timer-Added later p es t' waiting r
                (record {
                  present = o'.present;
                  apart = o'.apart.2;
                  waiting_live =
                      update-Live called.heap p (some t') es waiting o'.apart.0 o'.waiting_live.2;
                  present_live =
                      update-Live called.heap p (some t') called.timers o'.present o'.apart.1
                        o'.present_live;
                  sorted = o'.sorted;
                })
                o'.apart.0 o'.apart.1 (update-same called.heap p (some t')) in
            record {
              after = (add_timer later p t' r).0;
              returns = turn now later p t q true o.waiting_live.0 again;
              owned = a.owned;
              recorded = a.recorded ∙ c.recorded;
            }
      ]

-- What a whole run leaves.
record Rounds (waiting : List Timer) (q : TimerQueue) (r : Result TimerQueue) : Type 0 where
  pub after : TimerQueue
  pub returns : r ≡ ok after
  pub owned : IsOwned [] [] after
  pub recorded : after.ran ≡ q.ran ++ map (λ t. t.callback) waiting

module _ (added : Additions) where
  reset_timers-Rounds :
      (clock : ℕ → ℕ) (n : ℕ) (es : List Entry) (waiting : List Timer) (q : TimerQueue)
      → IsOwned es waiting q
      → Rounds waiting q (reset_timers added clock n es q)
  unfolding reset_timers
  reset_timers-Rounds clock n [] [] q o = record {
    after = q;
    returns = refl;
    owned = o;
    recorded = sym (append-nil q.ran);
  }
  reset_timers-Rounds clock n [] (t ∷ ts) q o = absurd o.waiting_live
  reset_timers-Rounds clock n (e ∷ es) [] q o = absurd o.waiting_live
  reset_timers-Rounds clock n ((u, p) ∷ es) (t ∷ ts) q o =
      let one = reset_timer-Round added (clock n) (clock (n + 1)) u p es t ts q o in
      let rest = reset_timers-Rounds clock (n + 2) es ts one.after one.owned in
      record {
        after = rest.after;
        returns = ap (λ r. r >>= reset_timers added clock (n + 2) es) one.returns ∙ rest.returns;
        owned = rest.owned;
        recorded =
            rest.recorded
            ∙ ap (λ r. r ++ map (λ x. x.callback) ts) one.recorded
            ∙ append_assoc q.ran (t.callback ∷ []) (map (λ x. x.callback) ts);
      }

  -- From a queue whose keys are sorted, whose pointers all lead to timers that expire at their keys,
  -- and in which no pointer stands twice, `handleRead` returns, whatever the clock reads and
  -- whatever timers the callbacks add at new pointers: it uses no deleted timer, it runs the
  -- callbacks of the timers that stand in front of the clock's first reading, each once and in the
  -- order of the keys, and it leaves a queue of the same kind.
  pub handle_read_lem :
      (clock : ℕ → ℕ) (q : TimerQueue) (o : IsOwned [] [] q)
      → (early late : List Timer) × (q' : TimerQueue) × (early ++ late ≡ o.present)
        × Live q.heap (front (clock 0) q.timers) early
        × (handle_read added clock q ≡ ok q')
        × (q'.ran ≡ q.ran ++ map (λ t. t.callback) early)
        × IsOwned [] [] q'
  unfolding handle_read get_expired_timers
  handle_read_lem clock q o =
      let now = clock 0 in
      let s = split-Parts q.heap now q.timers o.present o.present_live in
      let r =
        reset_timers-Rounds clock 1 (front now q.timers) s.early
          (record q { timers = rear now q.timers; expired = front now q.timers })
          (record {
            present = s.late;
            apart = split-Apart now q.timers o.apart;
            waiting_live = s.early_live;
            present_live = s.late_live;
            sorted = (get_expired_timers_lem now q o.sorted).3;
          }) in
      (s.early, s.late, r.after, s.whole, s.early_live, r.returns, r.recorded, r.owned)
