-- ===== src/Buffer/Append.antt =====
-- net/Buffer.cpp: what `append` does on each of its three ways to make room.
use rabbit_server.Prelude.{
  ℕ, ◌+◌, ◌-◌, ◌≤◌, ◌<◌, ◌≡◌, ◌⊎◌, refl, ap, ◌∙◌, ◌++◌, inl, inr, arith, ltb, Bool-cases, ltb→lt,
  le→leb, Bytes, length, take, drop, replicate, write_at, length-take, length-drop, take-length,
  length-replicate, length-append, take-append_add, take-append_le, take-take_le, drop-append_le,
  take-replicate,
}
use rabbit_server.Vector.{Allocator, Vector, capacity, resize, resize_grow, capacity-resize}
use rabbit_server.Buffer.Contents.{IsValid, length-contents}
use rabbit_server.Buffer.{Buffer, contents, writable_bytes, ensure_writable, compact, store, append}

pub length-write_at :
    (s xs : Bytes) (i : ℕ) → i + length xs ≤ length s → length (write_at s i xs) ≡ length s
length-write_at s xs i h = omega (
  arith,
  length-append (take i s) (xs ++ drop (i + length xs) s),
  length-append xs (drop (i + length xs) s),
  length-take i s,
  length-drop (i + length xs) s,
)

pub take-write_at :
    (s xs : Bytes) (i : ℕ) → i ≤ length s → take (i + length xs) (write_at s i xs) ≡ take i s ++ xs
take-write_at s xs i h =
    take-append_add (take i s) (xs ++ drop (i + length xs) s) (i + length xs) (length xs)
      (omega (arith, length-take i s))
    ∙ ap (◌++◌ (take i s)) (
        take-append_le (length xs) xs (drop (i + length xs) s) (omega arith)
        ∙ take-length xs (length xs) (omega arith))

module _ (b : Buffer) (v : IsValid b) where
  pub store-IsValid : (s : Bytes) → length s ≤ writable_bytes b → IsValid (store b s)
  store-IsValid s h = omega (
    arith,
    v.write-le-capacity,
    v.read-le-write,
    v.size-le-capacity,
    length-write_at b.buffer.storage s b.write_index (omega (arith, v.write-le-capacity)),
  )

  pub contents-store :
      (s : Bytes) → length s ≤ writable_bytes b → contents (store b s) ≡ contents b ++ s
  contents-store s h =
      ap (drop b.read_index) (take-write_at b.buffer.storage s b.write_index v.write-le-capacity)
      ∙ drop-append_le b.read_index (take b.write_index b.buffer.storage) s (
          omega (
            arith,
            v.read-le-write,
            v.write-le-capacity,
            length-take b.write_index b.buffer.storage,
          ))

  compact-IsValid : IsValid (compact b)
  compact-IsValid = omega (
    arith,
    v.write-le-capacity,
    v.read-le-write,
    v.size-le-capacity,
    length-write_at b.buffer.storage (contents b) 0
        (omega (arith, length-contents b v, v.write-le-capacity)),
    length-contents b v,
  )

  contents-compact : contents (compact b) ≡ contents b
  contents-compact =
      ap (λ n. take n (write_at b.buffer.storage 0 (contents b)))
        (omega (arith, length-contents b v))
      ∙ take-write_at b.buffer.storage (contents b) 0 (omega arith)

  writable-compact : writable_bytes (compact b) ≡ writable_bytes b + b.read_index
  writable-compact = omega (
    arith,
    v.write-le-capacity,
    v.read-le-write,
    length-contents b v,
    length-write_at b.buffer.storage (contents b) 0
        (omega (arith, length-contents b v, v.write-le-capacity)),
  )

-- The appended bytes keep the old ones in place: there is room, or the bytes move to the front, or
-- all that was written lies within the vector's size.
abbrev pub Keeps : Buffer → ℕ → Type 0
Keeps b len =
    (len ≤ writable_bytes b)
    ⊎ ((len - writable_bytes b < b.read_index) ⊎ (b.write_index ≤ b.buffer.size))

module _ (a : Allocator) (b : Buffer) (v : IsValid b) (n : ℕ) (full : writable_bytes b < n) where
  abbrev grown : Buffer
  grown = record b { buffer = resize a b.buffer (b.write_index + n) }

  grown_storage : resize a b.buffer (b.write_index + n) ≡ record {
    storage =
        take b.buffer.size b.buffer.storage
        ++ (replicate (b.write_index + n - b.buffer.size) 0
            ++ replicate
                (a.next_capacity b.buffer.size (b.write_index + n) - (b.write_index + n))
                a.garbage);
    size = b.write_index + n;
  }
  grown_storage =
      resize_grow a b.buffer (b.write_index + n) v.size-le-capacity (omega (arith, full))

  grown-capacity : b.write_index + n ≤ capacity grown.buffer
  grown-capacity =
      capacity-resize a b.buffer (b.write_index + n) v.size-le-capacity (omega (arith, full))

  grown-IsValid : IsValid grown
  grown-IsValid = record {
    read-le-write = v.read-le-write;
    write-le-capacity = omega (arith, grown-capacity);
    size-le-capacity = rw (ap (λ (w : Vector). w.size) grown_storage) grown-capacity;
  }

  contents-grown_kept : b.write_index ≤ b.buffer.size → contents grown ≡ contents b
  contents-grown_kept h =
      ap (λ (w : Vector). drop b.read_index (take b.write_index w.storage)) grown_storage
      ∙ ap (drop b.read_index) (
          take-append_le b.write_index (take b.buffer.size b.buffer.storage) _
            (omega (arith, h, v.size-le-capacity, length-take b.buffer.size b.buffer.storage))
          ∙ take-take_le b.write_index b.buffer.size b.buffer.storage h)

  contents-grown_lost :
      b.buffer.size ≤ b.write_index
      → contents grown
        ≡ drop b.read_index
            (take b.buffer.size b.buffer.storage ++ replicate (b.write_index - b.buffer.size) 0)
  contents-grown_lost h =
      ap (λ (w : Vector). drop b.read_index (take b.write_index w.storage)) grown_storage
      ∙ ap (drop b.read_index) (
          take-append_add (take b.buffer.size b.buffer.storage) _ b.write_index
            (b.write_index - b.buffer.size)
            (omega (arith, h, v.size-le-capacity, length-take b.buffer.size b.buffer.storage))
          ∙ ap (◌++◌ (take b.buffer.size b.buffer.storage)) (
              take-append_le (b.write_index - b.buffer.size)
                (replicate (b.write_index + n - b.buffer.size) 0) _
                (omega (arith, length-replicate {A = ℕ} (b.write_index + n - b.buffer.size) 0))
              ∙ take-replicate (b.write_index - b.buffer.size) (b.write_index + n - b.buffer.size) 0
                  (omega arith)))

-- Whichever way room is made, it is enough, and the indices stay in order.
record Room (b b' : Buffer) (n : ℕ) : Type 0 where
  valid : IsValid b'
  room : n ≤ writable_bytes b'
  kept : Keeps b n → contents b' ≡ contents b

ensure_writable-Room :
    (a : Allocator) (b : Buffer) (n : ℕ) → IsValid b → Room b (ensure_writable a b n) n
unfolding ensure_writable
ensure_writable-Room a b n v = elim (Bool-cases (ltb (writable_bytes b) n)) [
  | inr fits ↦ rw fits (record { valid = v; room = ground arith; kept = λ _. refl })
  | inl full ↦ rw full (elim (Bool-cases (ltb (n - writable_bytes b) b.read_index)) [
    | inl moves ↦ rw moves (record {
      valid = compact-IsValid b v;
      room = ground (arith, writable-compact b v);
      kept = λ _. contents-compact b v;
    })
    | inr grows ↦
        let f = ltb→lt (writable_bytes b) n full in
        rw grows (record {
          valid = grown-IsValid a b v n f;
          room = omega (arith, grown-capacity a b v n f);
          kept = λ k. contents-grown_kept a b v n f (ground arith);
        })
  ])
]

append-store :
    (a : Allocator) (b : Buffer) (s : Bytes)
    → IsValid b
    → append a b s ≡ store (ensure_writable a b (length s)) s
unfolding append
append-store a b s v = rw (
    le→leb (length s) (writable_bytes (ensure_writable a b (length s)))
      (ensure_writable-Room a b (length s) v).room)

-- Where there is room the bytes are stored at once.
pub append_fits :
    (a : Allocator) (b : Buffer) (s : Bytes)
    → length s ≤ writable_bytes b
    → append a b s ≡ store b s
unfolding append ensure_writable
append_fits a b s h = ground arith

pub append-IsValid : (a : Allocator) (b : Buffer) (s : Bytes) → IsValid b → IsValid (append a b s)
append-IsValid a b s v =
    let r = ensure_writable-Room a b (length s) v in
    rw (append-store a b s v) (store-IsValid (ensure_writable a b (length s)) r.valid s r.room)

-- Appending to a valid buffer puts the bytes behind the readable ones and keeps those, whether there
-- is room, the bytes move to the front, or the vector grows; when it grows, all that was written
-- must lie within the vector's size.
pub contents-append :
    (a : Allocator) (b : Buffer) (s : Bytes)
    → IsValid b
    → Keeps b (length s)
    → contents (append a b s) ≡ contents b ++ s
contents-append a b s v k =
    let r = ensure_writable-Room a b (length s) v in
    rw (append-store a b s v) (
      contents-store (ensure_writable a b (length s)) r.valid s r.room
      ∙ ap (λ c. c ++ s) (r.kept k))

-- If a valid buffer was written up to or past its vector's size, and an append finds too little room
-- behind the write index and does not get enough by moving the bytes to the front, so that the
-- vector grows, then the readable bytes past the size become zeros; those within it stay, and the
-- appended ones come behind.
pub contents-append_zeroes :
    (a : Allocator) (b : Buffer) (s : Bytes)
    → IsValid b
    → b.buffer.size ≤ b.write_index
    → writable_bytes b < length s
    → b.read_index ≤ length s - writable_bytes b
    → contents (append a b s)
      ≡ drop b.read_index
          (take b.buffer.size b.buffer.storage ++ replicate (b.write_index - b.buffer.size) 0)
        ++ s
contents-append_zeroes a b s v h f g =
    let r = ensure_writable-Room a b (length s) v in
    rw (append-store a b s v) (
      contents-store (ensure_writable a b (length s)) r.valid s r.room
      ∙ ap (λ c. c ++ s)
          (ap contents (ensure_writable-grown a b (length s) f g)
            ∙ contents-grown_lost a b v (length s) f h))
  where
    ensure_writable-grown :
        (a : Allocator) (b : Buffer) (n : ℕ)
        → writable_bytes b < n
        → b.read_index ≤ n - writable_bytes b
        → ensure_writable a b n ≡ record b { buffer = resize a b.buffer (b.write_index + n) }
    ensure_writable-grown a b n f g = unfold ensure_writable in ground arith
