-- ===== src/Buffer/Queue.antt =====
-- net/Buffer.cpp against the queue of bytes that its interface promises.
use rabbit_server.Prelude.{
  ℕ, ◌≡◌, refl, sym, ap, ◌∙◌, List, [], ◌∷◌, ◌++◌, inl, inr, arith, leb, Bool-cases, if◌then◌else◌,
  Bytes, length, take, drop, min, take-length, drop-length,
}
use rabbit_server.Vector.{Allocator}
use rabbit_server.Buffer.Contents.{
  IsValid, length-contents, contents-retrieve, retrieve-IsValid, retrieve_count,
}
use rabbit_server.Buffer.Append.{Keeps, contents-append, append-IsValid}
use rabbit_server.Buffer.ReadFd.{CatchesOutcome, outcome_bytes, contents-read_fd}
use rabbit_server.Buffer.{
  Buffer, contents, readable_bytes, append, append_buffer, retrieve, retrieve_all, retrieve_until,
  retrieve_as_string, retrieve_all_as_string, ReadOutcome, read_fd,
}

-- A call of one of the operations that change a buffer.
pub data Call : Type 0 where
  appends : Bytes → Call
  appends_buffer : Buffer → Call
  retrieves : ℕ → Call
  retrieves_until : ℕ → Call
  retrieves_all : Call
  takes : ℕ → Call
  takes_all : Call
  reads : ReadOutcome → Call

-- What the caller sees of a call.
pub data Answer : Type 0 where
  nothing : Answer
  count : ℕ → Answer
  text : Bytes → Answer

abbrev counted : Buffer × ℕ → Buffer × Answer
counted (b, n) = (b, count n)

abbrev texted : Buffer × Bytes → Buffer × Answer
texted (b, s) = (b, text s)

unfoldable pub call : Allocator → Buffer → Call → Buffer × Answer
call a b (appends s) = (append a b s, nothing)
call a b (appends_buffer other) = (append_buffer a b other, nothing)
call a b (retrieves n) = counted (retrieve b n)
call a b (retrieves_until n) = counted (retrieve_until b n)
call a b retrieves_all = counted (retrieve_all b)
call a b (takes n) = texted (retrieve_as_string b n)
call a b takes_all = texted (retrieve_all_as_string b)
call a b (reads r) = (read_fd a b r, nothing)

-- The same call on the bytes alone. Taking a string of any length empties the queue.
unfoldable pub queue_call : Bytes → Call → Bytes × Answer
queue_call q (appends s) = (q ++ s, nothing)
queue_call q (appends_buffer other) = (q ++ contents other, nothing)
queue_call q (retrieves n) = (drop n q, count (min n (length q)))
queue_call q (retrieves_until n) = (drop n q, count (min n (length q)))
queue_call q retrieves_all = ([], count (length q))
queue_call q (takes n) = ([], text (take n q))
queue_call q takes_all = ([], text q)
queue_call q (reads r) = (q ++ outcome_bytes r, nothing)

-- What a call needs of the vector behind the buffer.
abbrev pub Admits : Buffer → Call → Type 0
Admits b (appends s) = Keeps b (length s)
Admits b (appends_buffer other) = Keeps b (length (contents other))
Admits b (reads r) = CatchesOutcome b r
Admits b _ = Unit {0}

pub record Refines (c : Buffer × Answer) (q : Bytes × Answer) : Type 0 where
  pub valid : IsValid c.0
  pub contents_eq : contents c.0 ≡ q.0
  pub answer_eq : c.1 ≡ q.1

retrieve-Refines :
    (b : Buffer) (n : ℕ)
    → IsValid b
    → Refines (counted (retrieve b n)) (drop n (contents b), count (min n (length (contents b))))
retrieve-Refines b n v = record {
  valid = retrieve-IsValid b n v;
  contents_eq = contents-retrieve b n;
  answer_eq = ap count (omega (arith, retrieve_count b n, length-contents b v));
}

take_min :
    (b : Buffer) (n : ℕ)
    → IsValid b
    → take (if leb (readable_bytes b) n then readable_bytes b else n) (contents b)
      ≡ take n (contents b)
take_min b n v = elim (Bool-cases (leb (readable_bytes b) n)) [
  | inl all ↦ rw all (
      take-length (contents b) (readable_bytes b) (omega (arith, length-contents b v))
      ∙ sym (take-length (contents b) n (ground (arith, length-contents b v))))
  | inr part ↦ rw part
]

pub call-Refines :
    (a : Allocator) (b : Buffer) (c : Call)
    → IsValid b
    → Admits b c
    → Refines (call a b c) (queue_call (contents b) c)
unfolding call queue_call append_buffer retrieve_until retrieve_all retrieve_as_string
    retrieve_all_as_string
call-Refines a b (appends s) v k = record {
  valid = append-IsValid a b s v;
  contents_eq = contents-append a b s v k;
  answer_eq = refl;
}
call-Refines a b (appends_buffer other) v k = record {
  valid = append-IsValid a b (contents other) v;
  contents_eq = contents-append a b (contents other) v k;
  answer_eq = refl;
}
call-Refines a b (retrieves n) v k = retrieve-Refines b n v
call-Refines a b (retrieves_until n) v k = retrieve-Refines b n v
call-Refines a b retrieves_all v k = record {
  valid = retrieve-IsValid b (readable_bytes b) v;
  contents_eq =
      contents-retrieve b (readable_bytes b)
      ∙ drop-length (readable_bytes b) (contents b) (omega (arith, length-contents b v));
  answer_eq = ap count (omega (arith, retrieve_count b (readable_bytes b), length-contents b v));
}
call-Refines a b (takes n) v k = record {
  valid = omega (arith, v.size-le-capacity);
  contents_eq = refl;
  answer_eq = ap text (take_min b n v);
}
call-Refines a b takes_all v k = record {
  valid = omega (arith, v.size-le-capacity);
  contents_eq = refl;
  answer_eq = refl;
}
call-Refines a b (reads r) v k =
    let h = contents-read_fd a b r v k in
    record { valid = h.1; contents_eq = h.0; answer_eq = refl }

-- A client's calls in order, with the answers.
unfoldable pub run : Allocator → Buffer → List Call → Buffer × List Answer
run a b [] = (b, [])
run a b (c ∷ cs) =
    let first = call a b c in let rest = run a first.0 cs in (rest.0, first.1 ∷ rest.1)

unfoldable pub queue_run : Bytes → List Call → Bytes × List Answer
queue_run q [] = (q, [])
queue_run q (c ∷ cs) =
    let first = queue_call q c in let rest = queue_run first.0 cs in (rest.0, first.1 ∷ rest.1)

-- Each call finds what it needs.
pub data AdmitsAll (a : Allocator) : Buffer → List Call → Type 0 where
  done : {b : Buffer} → AdmitsAll a b []
  next :
      {b : Buffer} {c : Call} {cs : List Call}
      → Admits b c
      → AdmitsAll a (call a b c).0 cs
      → AdmitsAll a b (c ∷ cs)
