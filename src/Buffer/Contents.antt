-- ===== src/Buffer/Contents.antt =====
-- net/Buffer.cpp: the invariant of the indices, and the operations that take bytes out.
use rabbit_server.Prelude.{
  refl, [], ltb, ℕ, ◌≤◌, ◌≡◌, sym, inl, inr, arith, leb, Bool-cases, if◌then◌else◌, length, take,
  drop, min, length-take, length-drop, drop-drop, drop-length, length-replicate,
}
use rabbit_server.Vector.{capacity}
use rabbit_server.Buffer.{Buffer, init, contents, readable_bytes, retrieve, default_init_size}

-- The indices are in order and stay within the memory that the vector owns.
pub record IsValid (b : Buffer) : Type 0 where
  pub read-le-write : b.read_index ≤ b.write_index
  pub write-le-capacity : b.write_index ≤ capacity b.buffer
  pub size-le-capacity : b.buffer.size ≤ capacity b.buffer

pub init-IsValid : (n : ℕ) → IsValid (init n)
unfolding init
init-IsValid n = record {
  read-le-write = omega arith;
  write-le-capacity = omega arith;
  size-le-capacity = omega (
    arith,
    length-replicate {A = ℕ} (if ltb n default_init_size then default_init_size else n) 0,
  );
}

pub length-contents : (b : Buffer) → IsValid b → length (contents b) ≡ readable_bytes b
length-contents b v = omega (
  arith,
  length-drop b.read_index (take b.write_index b.buffer.storage),
  length-take b.write_index b.buffer.storage,
)

length-contents-le : (b : Buffer) → length (contents b) ≤ readable_bytes b
length-contents-le b = omega (
  arith,
  length-drop b.read_index (take b.write_index b.buffer.storage),
  length-take b.write_index b.buffer.storage,
)

-- No invariant is needed: an index out of order only makes both sides empty.
pub contents-retrieve : (b : Buffer) (n : ℕ) → contents (retrieve b n).0 ≡ drop n (contents b)
unfolding retrieve
contents-retrieve b n = elim (Bool-cases (leb (readable_bytes b) n)) [
  | inl all ↦ rw all (sym (drop-length n (contents b) (ground (arith, length-contents-le b))))
  | inr part ↦ rw part (sym (drop-drop b.read_index n (take b.write_index b.buffer.storage)))
]

pub retrieve-IsValid : (b : Buffer) (n : ℕ) → IsValid b → IsValid (retrieve b n).0
unfolding retrieve
retrieve-IsValid b n v = ground arith

pub retrieve_count : (b : Buffer) (n : ℕ) → (retrieve b n).1 ≡ min n (readable_bytes b)
unfolding retrieve
retrieve_count b n = ground arith

-- A new buffer is empty, and its vector has no memory behind its elements.
pub init_facts :
    (n : ℕ)
    → (contents (init n) ≡ [])
      × (default_init_size ≤ (init n).buffer.size)
      × ((init n).buffer.size ≡ capacity (init n).buffer)
      × ((init n).write_index ≡ 0)
unfolding init
init_facts n = (
  refl,
  ground arith,
  sym (length-replicate {A = ℕ} (if ltb n default_init_size then default_init_size else n) 0),
  refl,
)

-- A buffer with so much memory, in which nothing readable means that it starts again at the front.
pub record IsTidy (memory : ℕ) (b : Buffer) : Type 0 where
  pub same_memory : capacity b.buffer ≡ memory
  pub at_front : readable_bytes b ≡ 0 → b.write_index ≡ 0

pub retrieve-IsTidy :
    (memory : ℕ) (b : Buffer) (n : ℕ) → IsTidy memory b → IsTidy memory (retrieve b n).0
unfolding retrieve
retrieve-IsTidy memory b n t = elim (Bool-cases (leb (readable_bytes b) n)) [
  | inl all ↦ rw all (record { same_memory = t.same_memory; at_front = λ z. refl })
  | inr some_left ↦
      rw some_left
        (record { same_memory = t.same_memory; at_front = λ z. ground (arith, some_left, z) })
]
