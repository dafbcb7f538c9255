-- ===== src/Net/TcpServer/System/Kept.antt =====
-- net/TcpServer.cpp and net/TcpConnection.cpp: the invariant of a server with its connections.
use rabbit_server.Prelude.{
  ℕ, ◌+◌, ◌<◌, ◌≡◌, inl, inr, refl, ap, sym, subst, ◌∙◌, ◌==◌, some, List, [], ◌∷◌, ◌++◌, arith,
  equal_refl, Bool-cases, ok, Bytes,
}
use rabbit_server.Vector.{Allocator}
use rabbit_server.Net.Connection
use rabbit_server.Net.Connection.{
  TcpConnection, State, disconnected, Effect, close_callback, wrote, Event, connection_establish,
  connection_destroyed,
}
use rabbit_server.Net.Connection.Lifecycle.{
  close_count, open_count, IsOrdinary, step-Balances, destroyed-Pays,
}
use rabbit_server.Net.EventLoopThreadPool.RoundRobin.{IsReady, get_next_loop-IsReady}
use rabbit_server.Net.TcpServer.Names.{id_limit, new_connection-Accepted}
use rabbit_server.Net.TcpServer.Removal.{open_count-le}
use rabbit_server.Net.TcpServer.System.{
  Objects, put, System, runs_functor, functors_of, accept, happen, run_destroy, step,
}
use rabbit_server.Net.TcpServer.{ConnectionPtr, connection_name, serve}
use rabbit_server.Net.TcpServer.System.Updates.{
  names_differ, names_differ, IsListed, serve-IsUpdated, IsListed-update,
}
use rabbit_server.Net.TcpServer.System.Invariant.{
  put-other, put-same, put-there, put-cases, AreClosed, IsKept, AreClosed-put, AreClosed-append,
}

functors_of-AreClosed :
    (p : ℕ) (es : List Effect) (os : Objects)
    → (0 < close_count es → AreClosed (p ∷ []) os)
    → AreClosed (functors_of p es) os
functors_of-AreClosed p [] os h = tt
functors_of-AreClosed p (close_callback ∷ es) os h =
    ((h (omega arith)).0, functors_of-AreClosed p es os (λ _. h (omega arith)))
functors_of-AreClosed p (wrote b ∷ es) os h = functors_of-AreClosed p es os h
functors_of-AreClosed p (_ ∷ es) os h = functors_of-AreClosed p es os h

pub happen-IsKept :
    {name : Bytes} (a : Allocator) (s : System) (p : ℕ) (conn : ConnectionPtr) (c : TcpConnection)
    (e : Event)
    → IsKept name s
    → s.objects p ≡ some (conn, c)
    → IsOrdinary e
    → (s' : System) × (happen a p e (conn, c) s ≡ ok s')
      × IsKept name s'
      × (s'.server.next_connection_id ≡ s.server.next_connection_id)
unfolding happen
happen-IsKept a s p conn c e k there o =
    let l = k.entries p conn c there in
    let c' = (Connection.step a c e).0 in
    let es = (Connection.step a c e).1 in
    let u = serve-IsUpdated a s.server p conn c e k.fresh l o in
    let balance = step-Balances a c e o in
    let own : IsListed u.after p conn c' = record {
      made = omega (arith, u.same_id, l.made);
      named = l.named ∙ ap (λ x. connection_name x p) (sym u.same_name);
      listed = u.listed;
      unlisted = u.unlisted;
    } in
    (
      record {
        server = u.after;
        objects = put p (conn, c') s.objects;
        functors = s.functors ++ functors_of p es;
      },
      rw u.returns refl,
      record {
        same_name = u.same_name ∙ k.same_name;
        fresh = u.fresh;
        ready = subst IsReady (sym u.same_pool) k.ready;
        in_limit = omega (arith, u.same_id, k.in_limit);
        entries = λ q conn2 c2 e2. elim (put-cases p q (conn, c') (conn2, c2) s.objects e2) [
          | inl (same, pair) ↦
              subst (λ x. IsListed u.after q x.0 x.1) pair
                (subst (λ n. IsListed u.after n conn c') same own)
          | inr (n, old) ↦
              IsListed-update s.server p q conn conn2 c c' (serve es conn s.server) u k.in_limit l n
                c2 (k.entries q conn2 c2 old)
        ];
        closed =
            AreClosed-append s.functors (functors_of p es) (put p (conn, c') s.objects)
              (AreClosed-put s.functors p conn c c' s.objects there (λ z. omega (arith, balance, z))
                k.closed)
              (functors_of-AreClosed p es (put p (conn, c') s.objects) (λ some_close. (
                (
                  (conn, c'),
                  put-same p (conn, c') s.objects,
                  omega (arith, balance, some_close, open_count-le c.state),
                ),
                tt,
              )));
        there = λ q h. put-there p q (conn, c') s.objects (k.there q (omega (arith, u.same_id, h)));
      },
      u.same_id,
    )

established :
    (name : Bytes) (fd : ℕ)
    → (connection_establish (Connection.new_connection name fd)).0.state ≡ Connection.connected
unfolding connection_establish
established name fd = refl

AreClosed-put_new :
    (ps : List ℕ) (p : ℕ) (x : ConnectionPtr × TcpConnection) (os : Objects)
    → ((y : ConnectionPtr × TcpConnection) → os p ≡ some y → ⊥)
    → AreClosed ps os
    → AreClosed ps (put p x os)
AreClosed-put_new [] p x os e a = tt
AreClosed-put_new (q ∷ ps) p x os e ((y, old, shut), a) = (
  (y, put-other p q x os (λ same. e y (ap os same ∙ old)) ∙ old, shut),
  AreClosed-put_new ps p x os e a,
)

pub accept-IsKept :
    {name : Bytes} (fd : ℕ) (s : System)
    → IsKept name s
    → s.server.next_connection_id < id_limit
    → (s' : System) × (accept fd s ≡ ok s')
      × IsKept name s'
      × (s'.server.next_connection_id ≡ s.server.next_connection_id + 1)
unfolding accept
accept-IsKept fd s k h =
    let p = s.server.next_connection_id in
    let (loop, pool, next, ready) = get_next_loop-IsReady s.server.loops_thread_pool k.ready in
    let r = new_connection-Accepted p s.server loop pool k.fresh h next in
    let c = (connection_establish (Connection.new_connection r.conn.name fd)).0 in
    let up = established r.conn.name fd in
    let same_pool : pool ≡ r.server.loops_thread_pool = cc in
    (
      record { server = r.server; objects = put p (r.conn, c) s.objects; functors = s.functors },
      rw r.result refl,
      record {
        same_name = r.same_name ∙ k.same_name;
        fresh = r.fresh;
        ready = subst IsReady same_pool ready;
        in_limit = omega (arith, r.counted, h);
        entries = λ q conn2 c2 e2. elim (put-cases p q (r.conn, c) (conn2, c2) s.objects e2) [
          | inl (same, pair) ↦
              subst (λ x. IsListed r.server q x.0 x.1) pair
                (subst (λ n. IsListed r.server n r.conn c) same
                  (record {
                    made = omega (arith, r.counted);
                    named = r.named ∙ ap (λ x. connection_name x p) (sym r.same_name);
                    listed = λ z. r.entered r.conn.name ∙ rw (equal_refl r.conn.name) refl;
                    unlisted = λ z. let z' : 1 ≡ 0 = sym (ap open_count up) ∙ z in cc;
                  }))
          | inr (n, old) ↦
              let m = k.entries q conn2 c2 old in
              let apart =
                names_differ s.server.name p q r.conn.name conn2.name r.named m.named h
                  (omega (arith, m.made, h)) n in
              record {
                made = omega (arith, r.counted, m.made);
                named = m.named ∙ ap (λ x. connection_name x q) (sym r.same_name);
                listed = λ z. r.entered conn2.name ∙ rw apart (m.listed z);
                unlisted = λ z. r.entered conn2.name ∙ rw apart (m.unlisted z);
              }
        ];
        closed =
            AreClosed-put_new s.functors p (r.conn, c) s.objects
              (λ y e. omega (arith, (k.entries p y.0 y.1 e).made)) k.closed;
        there = λ q z. elim (Bool-cases (p == q)) [
          | inl same ↦ rw same ((r.conn, c), refl)
          | inr other ↦
              put-there p q (r.conn, c) s.objects (k.there q (ground (arith, other, z, r.counted)))
        ];
      },
      r.counted,
    )

destroyed_closed :
    (c : TcpConnection) → open_count c.state ≡ 0 → open_count (connection_destroyed c).0.state ≡ 0
destroyed_closed c h = omega (arith, h, destroyed-Pays c)

-- The first functor that waits.
pub run_functor-IsKept :
    {name : Bytes} (a : Allocator) (s : System) (fs : List ℕ)
    → IsKept name s
    → s.functors ≡ fs
    → (s' : System) × (step a runs_functor s ≡ ok s')
      × IsKept name s'
      × (s'.server.next_connection_id ≡ s.server.next_connection_id)
unfolding step run_destroy
run_functor-IsKept a s [] k e = (s, rw e refl, k, refl)
run_functor-IsKept a s (p ∷ ps) k e =
    let waiting : AreClosed (p ∷ ps) s.objects = subst (λ fs. AreClosed fs s.objects) e k.closed in
    let ((conn, c), there, shut) = waiting.0 in
    let c' = (connection_destroyed c).0 in
    let l = k.entries p conn c there in
    let shut' = destroyed_closed c shut in
    let own : IsListed s.server p conn c' = record {
      made = l.made;
      named = l.named;
      listed = λ z. absurd (omega (arith, z, shut'));
      unlisted = λ z. l.unlisted shut;
    } in
    (
      record s { objects = put p (conn, c') s.objects; functors = ps },
      rw (e, there) refl,
      record {
        same_name = k.same_name;
        fresh = k.fresh;
        ready = k.ready;
        in_limit = k.in_limit;
        entries = λ q conn2 c2 e2. elim (put-cases p q (conn, c') (conn2, c2) s.objects e2) [
          | inl (same, pair) ↦
              subst (λ x. IsListed s.server q x.0 x.1) pair
                (subst (λ n. IsListed s.server n conn c') same own)
          | inr (n, old) ↦ k.entries q conn2 c2 old
        ];
        closed = AreClosed-put ps p conn c c' s.objects there (destroyed_closed c) waiting.1;
        there = λ q z. put-there p q (conn, c') s.objects (k.there q z);
      },
      refl,
    )
