-- ===== src/Http/Context/RequestLine.antt =====
-- HTTP/HttpContext.cpp: `processRequestLine` reads a printed request line.
use rabbit_server.Prelude.{
  ℕ, ◌+◌, ◌≡◌, ◌≢◌, ◌⊎◌, inl, inr, refl, ap, true, false, [], ◌∷◌, ◌++◌, arith, ◌==◌, Bytes, equal,
  index_of, length, take, drop, length-append, take-append_length, drop-append_length,
  drop-append_cons, Lacks, Lacks-append, index_of-append, index_of-Lacks, ok, append-nil,
}
use rabbit_server.Http.Request.Headers.{method_of-method_string}
use rabbit_server.Http.Request.{
  Method, invalid, Version, unknown, http10, http11, HttpRequest, fresh, method_string, set_method,
}
use rabbit_server.Http.Context.{process_request_line, set_target, process_version, process_target}
use rabbit_server.Http.Context.Message.{Message, version_text, request_line, IsQuery, IsWellFormed}

method_string-Lacks : (c : ℕ) (m : Method) → (c ≡ b' ') ⊎ (c ≡ b'\r') → Lacks c (method_string m)
unfolding method_string
method_string-Lacks c invalid h = omega arith
method_string-Lacks c _ h = omega arith

process_version_text :
    (v : Version) (r : HttpRequest)
    → v ≢ unknown
    → process_version (version_text v) r ≡ (true, record r { version = v })
unfolding process_version equal
process_version_text unknown r h = absurd (h refl)
process_version_text http10 r h = refl
process_version_text http11 r h = refl

-- The parts of a text at the first occurrence of a byte.
pub record SplitsAt (c : ℕ) (word rest text : Bytes) : Type 0 where
  pub found : (index_of c text == length text) ≡ false
  pub before : take (index_of c text) text ≡ word
  pub behind : drop (index_of c text + 1) text ≡ rest
  pub from : drop (index_of c text) text ≡ c ∷ rest

pub splits : (c : ℕ) (word rest : Bytes) → Lacks c word → SplitsAt c word rest (word ++ (c ∷ rest))
splits c word rest h =
    let e = index_of-append c word rest h in
    record {
      found = rw e (ground (arith, length-append word (c ∷ rest)));
      before = rw e (take-append_length word (c ∷ rest));
      behind = rw e (drop-append_cons word rest c);
      from = rw e (drop-append_length word (c ∷ rest));
    }

set_target_path :
    (path query : Bytes) (r : HttpRequest)
    → Lacks b'?' path
    → IsQuery query
    → r.query ≡ []
    → set_target (path ++ query) r ≡ record r { path = path; query = query }
set_target_path path [] r h q e = rw (append-nil path, index_of-Lacks b'?' path h) (ground arith)
set_target_path path (c ∷ cs) r h q e =
    rw q.0 (let s = splits b'?' path cs h in rw (s.found, s.before, s.from))

query-Lacks : (query : Bytes) → IsQuery query → Lacks b' ' query × Lacks b'\r' query
query-Lacks [] q = (tt, tt)
query-Lacks (c ∷ cs) q = ((omega arith, q.1), (omega arith, q.2))

process_target-print :
    (m : Message) (r : HttpRequest)
    → IsWellFormed m
    → r.query ≡ []
    → process_target ((m.path ++ m.query) ++ (b' ' ∷ version_text m.version)) r
      ≡ (true, record r { path = m.path; query = m.query; version = m.version })
unfolding process_target
process_target-print m r w e =
    let s =
      splits b' ' (m.path ++ m.query) (version_text m.version)
        (Lacks-append b' ' m.path m.query w.path_no_space (query-Lacks m.query w.query_ok).0) in
    rw
      (
        s.found,
        s.before,
        s.behind,
        set_target_path m.path m.query r w.path_no_question w.query_ok e,
      )
      (process_version_text m.version (record r { path = m.path; query = m.query }) w.version_known)

pub process_request_line-print :
    (m : Message) (v : Version)
    → IsWellFormed m
    → process_request_line (request_line m) (record fresh { version = v })
      ≡ ok (
        true,
        record fresh { method = m.method; version = m.version; path = m.path; query = m.query },
      )
unfolding process_request_line set_method
process_request_line-print m v w =
    let s =
      splits b' ' (method_string m.method) ((m.path ++ m.query) ++ (b' ' ∷ version_text m.version))
        (method_string-Lacks b' ' m.method (inl refl)) in
    rw (s.found, s.before, s.behind, method_of-method_string m.method, w.method_valid)
      (ap ok (process_target-print m (record fresh { method = m.method; version = v }) w refl))

pub request_line-Lacks : (m : Message) → IsWellFormed m → Lacks b'\r' (request_line m)
request_line-Lacks m w =
    Lacks-append b'\r' (method_string m.method) _ (method_string-Lacks b'\r' m.method (inr refl)) (
      omega arith,
      Lacks-append b'\r' (m.path ++ m.query) (b' ' ∷ version_text m.version)
          (Lacks-append b'\r' m.path m.query w.path_no_return (query-Lacks m.query w.query_ok).1)
          (omega arith, version_text-Lacks m.version),
    )
  where
    version_text-Lacks : (v : Version) → Lacks b'\r' (version_text v)
    version_text-Lacks unknown = omega arith
    version_text-Lacks http10 = omega arith
    version_text-Lacks http11 = omega arith
