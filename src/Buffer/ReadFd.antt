-- ===== src/Buffer/ReadFd.antt =====
-- net/Buffer.cpp: `readFd`, which reads into the buffer and into `extrabuf` at once.
use rabbit_server.Prelude.{
  ℕ, ◌-◌, ◌≤◌, ◌<◌, ◌≡◌, ◌⊎◌, sym, ap, ◌∙◌, [], ◌++◌, inl, inr, arith, ltb, Bool-cases, ltb→lt,
  le→leb, Bytes, length, take, drop, write_at, length-take, take-length, append-nil, append_assoc,
  take-append_le, take-take_le, drop-append_le, take-append-drop,
}
use rabbit_server.Vector.{Allocator, capacity}
use rabbit_server.Buffer.Contents.{IsValid}
use rabbit_server.Buffer.Append.{
  length-write_at, take-write_at, contents-append, append-IsValid, contents-store, store-IsValid,
}
use rabbit_server.Buffer.{
  Buffer, contents, writable_bytes, store, append, ReadOutcome, failed, received, receive, read_fd,
}

-- The bytes fit, or the vector has no memory behind its last element.
abbrev pub Catches : Buffer → Bytes → Type 0
Catches b bytes = (length bytes ≤ writable_bytes b) ⊎ (b.buffer.size ≡ capacity b.buffer)

module _ (a : Allocator) (b : Buffer) (bytes : Bytes) (v : IsValid b) where
  abbrev room : ℕ
  room = writable_bytes b

  -- The buffer when its memory is full and the write index stands at the vector's size.
  abbrev filled : Buffer
  filled = record b {
    buffer = record b.buffer {
      storage = write_at b.buffer.storage b.write_index (take room bytes);
    };
    write_index = b.buffer.size;
  }

  module _ (spills : writable_bytes b < length bytes) where
    length-first : length (take room bytes) ≡ room
    length-first = omega (arith, length-take room bytes, spills)

    capacity-filled : capacity filled.buffer ≡ capacity b.buffer
    capacity-filled =
        length-write_at b.buffer.storage (take room bytes) b.write_index
          (omega (arith, length-first, v.write-le-capacity))

    filled-IsValid : b.read_index ≤ b.buffer.size → IsValid filled
    filled-IsValid h = omega (arith, capacity-filled, v.size-le-capacity)

    receive-append : receive a b bytes ≡ append a filled (drop room bytes)
    unfolding receive
    receive-append = ground arith

    contents-receive_spill :
        b.read_index ≤ b.buffer.size
        → contents (receive a b bytes) ≡ contents filled ++ drop room bytes
    contents-receive_spill h =
        rw receive-append
          (contents-append a filled (drop room bytes) (filled-IsValid h) (inr (inr (omega arith))))

    contents-filled_tight :
        b.buffer.size ≡ capacity b.buffer → contents filled ≡ contents b ++ take room bytes
    contents-filled_tight e =
        ap (λ n. drop b.read_index (take n filled.buffer.storage))
          (omega (arith, e, length-first, v.write-le-capacity))
        ∙ ap (drop b.read_index)
            (take-write_at b.buffer.storage (take room bytes) b.write_index v.write-le-capacity)
        ∙ drop-append_le b.read_index (take b.write_index b.buffer.storage) (take room bytes) (
            omega (
              arith,
              v.read-le-write,
              v.write-le-capacity,
              length-take b.write_index b.buffer.storage,
            ))

    contents-filled_loose :
        b.buffer.size ≤ b.write_index
        → contents filled ≡ drop b.read_index (take b.buffer.size b.buffer.storage)
    contents-filled_loose h = ap (drop b.read_index) (
        take-append_le b.buffer.size (take b.write_index b.buffer.storage) _
          (omega (arith, h, v.write-le-capacity, length-take b.write_index b.buffer.storage))
        ∙ take-take_le b.buffer.size b.write_index b.buffer.storage h)

  receive-store : length bytes ≤ writable_bytes b → receive a b bytes ≡ store b bytes
  unfolding receive
  receive-store h =
      rw (le→leb (length bytes) (writable_bytes b) h, take-length bytes (writable_bytes b) h)

  contents-receive : Catches b bytes → contents (receive a b bytes) ≡ contents b ++ bytes
  contents-receive c = elim (Bool-cases (ltb (writable_bytes b) (length bytes))) [
    | inr fits ↦
        let h : length bytes ≤ writable_bytes b = ground arith in
        rw (receive-store h) (contents-store b v bytes h)
    | inl spills ↦
        let f = ltb→lt (writable_bytes b) (length bytes) spills in
        let e : b.buffer.size ≡ capacity b.buffer = ground arith in
        contents-receive_spill f (omega (arith, e, v.read-le-write, v.write-le-capacity))
        ∙ ap (λ c. c ++ drop room bytes) (contents-filled_tight f e)
        ∙ append_assoc (contents b) (take room bytes) (drop room bytes)
        ∙ ap (◌++◌ (contents b)) (take-append-drop room bytes)
  ]

  receive-IsValid : Catches b bytes → IsValid (receive a b bytes)
  receive-IsValid c = elim (Bool-cases (ltb (writable_bytes b) (length bytes))) [
    | inr fits ↦
        let h : length bytes ≤ writable_bytes b = ground arith in
        rw (receive-store h) (store-IsValid b v bytes h)
    | inl spills ↦
        let f = ltb→lt (writable_bytes b) (length bytes) spills in
        let e : b.buffer.size ≡ capacity b.buffer = ground arith in
        rw (receive-append f) (
          append-IsValid a filled (drop room bytes)
            (filled-IsValid f (omega (arith, e, v.read-le-write, v.write-le-capacity))))
  ]

-- Bytes that fit take their room and no more.
pub writable-read_fd :
    (a : Allocator) (b : Buffer) (bytes : Bytes)
    → IsValid b
    → length bytes ≤ writable_bytes b
    → writable_bytes (read_fd a b (received bytes)) ≡ writable_bytes b - length bytes
unfolding read_fd
writable-read_fd a b bytes v h = rw (receive-store a b bytes v h) (
    omega (
      arith,
      v.write-le-capacity,
      length-write_at b.buffer.storage bytes b.write_index (omega (arith, h, v.write-le-capacity)),
    ))

pub capacity-read_fd :
    (a : Allocator) (b : Buffer) (bytes : Bytes)
    → IsValid b
    → length bytes ≤ writable_bytes b
    → capacity (read_fd a b (received bytes)).buffer ≡ capacity b.buffer
unfolding read_fd
capacity-read_fd a b bytes v h =
    rw (receive-store a b bytes v h)
      (length-write_at b.buffer.storage bytes b.write_index (omega (arith, h, v.write-le-capacity)))

abbrev pub CatchesOutcome : Buffer → ReadOutcome → Type 0
CatchesOutcome b (failed e) = Unit {0}
CatchesOutcome b (received bytes) = Catches b bytes

abbrev pub outcome_bytes : ReadOutcome → Bytes
outcome_bytes (failed e) = []
outcome_bytes (received bytes) = bytes

-- `readFd` on a valid buffer keeps it valid and puts what `readv` placed behind the readable bytes,
-- the part in `extrabuf` included, or changes nothing on an error; the bytes must fit into the
-- vector's memory, or the vector's size be its capacity.
pub contents-read_fd :
    (a : Allocator) (b : Buffer) (r : ReadOutcome)
    → IsValid b
    → CatchesOutcome b r
    → (contents (read_fd a b r) ≡ contents b ++ outcome_bytes r) × IsValid (read_fd a b r)
unfolding read_fd
contents-read_fd a b (failed e) v c = (sym (append-nil (contents b)), v)
contents-read_fd a b (received bytes) v c =
    (contents-receive a b bytes v c, receive-IsValid a b bytes v c)

-- If a valid buffer was written up to or past its vector's size, what is readable starts within that
-- size, and more bytes arrive than the memory holds, `readFd` loses those between the size and the
-- capacity: the readable bytes are the old ones up to the size and then the bytes from `extrabuf`.
pub contents-read_fd_loses :
    (a : Allocator) (b : Buffer) (bytes : Bytes)
    → IsValid b
    → writable_bytes b < length bytes
    → b.read_index ≤ b.buffer.size
    → b.buffer.size ≤ b.write_index
    → contents (read_fd a b (received bytes))
      ≡ drop b.read_index (take b.buffer.size b.buffer.storage) ++ drop (writable_bytes b) bytes
unfolding read_fd
contents-read_fd_loses a b bytes v f h k =
    contents-receive_spill a b bytes v f h
    ∙ ap (λ c. c ++ drop (writable_bytes b) bytes) (contents-filled_loose a b bytes v f k)
