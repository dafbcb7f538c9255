-- ===== src/Net/TcpServer/System/Invariant.antt =====
-- net/TcpServer.cpp and net/TcpConnection.cpp: the invariant of a server with its connections.
use rabbit_server.Prelude.{
  ℕ, ◌≤◌, ◌<◌, ◌≡◌, ◌≢◌, ◌⊎◌, inl, inr, refl, ap, sym, ◌∙◌, ◌==◌, ==_iff, Option, none, some, List,
  [], ◌∷◌, ◌++◌, arith, Bool-cases, Bytes,
}
use rabbit_server.Net.Connection.{TcpConnection}
use rabbit_server.Net.Connection.Lifecycle.{open_count}
use rabbit_server.Net.EventLoopThreadPool.RoundRobin.{IsReady}
use rabbit_server.Net.TcpServer.Names.{IsFresh, id_limit}
use rabbit_server.Net.TcpServer.System.{Objects, put, System}
use rabbit_server.Net.TcpServer.{ConnectionPtr}
use rabbit_server.Net.TcpServer.System.Updates.{IsListed}

pub put-same : (p : ℕ) (x : ConnectionPtr × TcpConnection) (os : Objects) → put p x os p ≡ some x
put-same p x os = rw ((==_iff p p).1 refl)

pub put-other :
    (p q : ℕ) (x : ConnectionPtr × TcpConnection) (os : Objects) → p ≢ q → put p x os q ≡ os q
put-other p q x os n = ground (arith, n)

-- A pointer at which something is put, and another one.
pub put-cases :
    (p q : ℕ) (x y : ConnectionPtr × TcpConnection) (os : Objects)
    → put p x os q ≡ some y
    → ((p ≡ q) × (x ≡ y)) ⊎ ((p ≢ q) × (os q ≡ some y))
put-cases p q x y os e = elim (Bool-cases (p == q)) [
  | inl same ↦ let h : some x ≡ some y = rw same at e in inl ((==_iff p q).0 same, cc)
  | inr other ↦ let h : os q ≡ some y = rw other at e in inr (λ z. ground (arith, other, z), h)
]

-- The functors that wait are of closed connections.
abbrev pub AreClosed : List ℕ → Objects → Type 0
AreClosed [] os = Unit {0}
AreClosed (p ∷ ps) os =
    ((x : ConnectionPtr × TcpConnection) × (os p ≡ some x) × (open_count x.1.state ≡ 0))
    × AreClosed ps os

pub record IsKept (name : Bytes) (s : System) : Type 0 where
  pub same_name : s.server.name ≡ name
  pub fresh : IsFresh s.server
  pub ready : IsReady s.server.loops_thread_pool
  pub in_limit : s.server.next_connection_id ≤ id_limit
  pub entries :
      (p : ℕ) (conn : ConnectionPtr) (c : TcpConnection)
      → s.objects p ≡ some (conn, c)
      → IsListed s.server p conn c
  pub closed : AreClosed s.functors s.objects
  pub there :
      (p : ℕ)
      → p < s.server.next_connection_id
      → (x : ConnectionPtr × TcpConnection) × (s.objects p ≡ some x)

pub put-there :
    (p q : ℕ) (x : ConnectionPtr × TcpConnection) (os : Objects)
    → ((y : ConnectionPtr × TcpConnection) × (os q ≡ some y))
    → (y : ConnectionPtr × TcpConnection) × (put p x os q ≡ some y)
put-there p q x os (y, e) = elim (Bool-cases (p == q)) [
  | inl same ↦ rw same (x, refl)
  | inr other ↦ rw other (y, e)
]

pub AreClosed-put :
    (ps : List ℕ) (p : ℕ) (conn : ConnectionPtr) (c c' : TcpConnection) (os : Objects)
    → os p ≡ some (conn, c)
    → (open_count c.state ≡ 0 → open_count c'.state ≡ 0)
    → AreClosed ps os
    → AreClosed ps (put p (conn, c') os)
AreClosed-put [] p conn c c' os e h a = tt
AreClosed-put (q ∷ ps) p conn c c' os e h ((y, old, shut), a) = (
  elim (Bool-cases (p == q)) [
    | inr other ↦ (y, put-other p q (conn, c') os (λ same. ground (arith, other, same)) ∙ old, shut)
    | inl same ↦
        let at_q : p ≡ q = (==_iff p q).0 same in
        let pair : some (conn, c) ≡ some y = sym e ∙ ap os at_q ∙ old in
        let c_shut : open_count c.state ≡ 0 = ap (state_count c) pair ∙ shut in
        ((conn, c'), ap (put p (conn, c') os) (sym at_q) ∙ put-same p (conn, c') os, h c_shut)
  ],
  AreClosed-put ps p conn c c' os e h a,
)
  where
    state_count : TcpConnection → Option (ConnectionPtr × TcpConnection) → ℕ
    state_count d none = open_count d.state
    state_count d (some x) = open_count x.1.state

pub AreClosed-append :
    (ps qs : List ℕ) (os : Objects) → AreClosed ps os → AreClosed qs os → AreClosed (ps ++ qs) os
AreClosed-append [] qs os a b = b
AreClosed-append (p ∷ ps) qs os a b = (a.0, AreClosed-append ps qs os a.1 b)
