-- ===== src/Buffer.antt =====
-- net/Buffer.h and net/Buffer.cpp. Lengths and indices are C++ `int`s that the callers keep
-- non-negative and below 2^31, so they are plain numbers here. A pointer into the buffer is its
-- offset from `peek()`. Of the static `extrabuf` only its size matters: it is scratch space.
pub mod Contents
pub mod Append
pub mod Queue
pub mod ReadFd
pub mod Input
mod Tests
use rabbit_server.Prelude.{
  ℕ, ◌+◌, ◌-◌, ◌≤◌, Bool, Option, none, some, if◌then◌else◌, ltb, leb, Bytes, length, take, drop,
  replicate, write_at, find_crlf, index_of, ◌==◌,
}
use rabbit_server.Vector.{Allocator, Vector, capacity, resize}

pub record Buffer : Type 0 where
  pub buffer : Vector
  pub read_index : ℕ
  pub write_index : ℕ

abbrev pub default_init_size : ℕ
default_init_size = 1024

-- The constructor: `initSize` is raised to the default.
unfoldable pub init : ℕ → Buffer
init init_size =
    let n = if ltb init_size default_init_size then default_init_size else init_size in
    record {
      buffer = record { storage = replicate n 0; size = n };
      read_index = 0;
      write_index = 0;
    }

abbrev pub readable_bytes : Buffer → ℕ
readable_bytes b = b.write_index - b.read_index

-- `writeableBytes` goes by the capacity of the vector, not by its size.
abbrev pub writable_bytes : Buffer → ℕ
writable_bytes b = capacity b.buffer - b.write_index

-- The bytes from `peek()` up to the write index.
abbrev pub contents : Buffer → Bytes
contents b = drop b.read_index (take b.write_index b.buffer.storage)

-- `std::copy` to the front.
abbrev compact : Buffer → Buffer
compact b = record {
  buffer = record b.buffer { storage = write_at b.buffer.storage 0 (contents b) };
  read_index = 0;
  write_index = b.write_index - b.read_index;
}

unfoldable pub ensure_writable : Allocator → Buffer → ℕ → Buffer
ensure_writable a b len =
    if ltb (writable_bytes b) len
    then if ltb (len - writable_bytes b) b.read_index
      then compact b
      else record b { buffer = resize a b.buffer (b.write_index + len) }
    else b

-- `std::copy` behind the write index.
abbrev pub store : Buffer → Bytes → Buffer
store b source = record b {
  buffer = record b.buffer { storage = write_at b.buffer.storage b.write_index source };
  write_index = b.write_index + length source;
}

-- Both `append(const char *, int)` and `append(const std::string &)`.
unfoldable pub append : Allocator → Buffer → Bytes → Buffer
append a b source =
    let b' = ensure_writable a b (length source) in
    if leb (length source) (writable_bytes b') then store b' source else b'

-- `append(Buffer *)`.
unfoldable pub append_buffer : Allocator → Buffer → Buffer → Buffer
append_buffer a b other = append a b (contents other)

abbrev pub clear : Buffer → Buffer
clear b = record b { read_index = 0; write_index = 0 }

-- `retrieve`: the buffer left, and how many bytes went.
unfoldable pub retrieve : Buffer → ℕ → Buffer × ℕ
retrieve b len =
    if leb (readable_bytes b) len
    then (clear b, readable_bytes b)
    else (record b { read_index = b.read_index + len }, len)

unfoldable pub retrieve_all : Buffer → Buffer × ℕ
retrieve_all b = retrieve b (readable_bytes b)

-- `retrieveUntill(end)`, with `end` as an offset from `peek()`.
unfoldable pub retrieve_until : Buffer → ℕ → Buffer × ℕ
retrieve_until b end = retrieve b end

-- `retrieveAsString(len)` resets both indices, whatever `len` is.
unfoldable pub retrieve_as_string : Buffer → ℕ → Buffer × Bytes
retrieve_as_string b len =
    let n = if leb (readable_bytes b) len then readable_bytes b else len in
    (clear b, take n (contents b))

unfoldable pub retrieve_all_as_string : Buffer → Buffer × Bytes
retrieve_all_as_string b = (clear b, contents b)

-- `findCLRF(peek() + start)`, as an offset from `start`.
unfoldable pub find_crlf_from : Buffer → ℕ → Option ℕ
find_crlf_from b start = find_crlf (drop start (contents b))

-- `findEOF(peek() + start)`: `memchr` for a newline.
unfoldable pub find_eof : Buffer → ℕ → Option ℕ
find_eof b start =
    let rest = drop start (contents b) in
    let k = index_of b'\n' rest in if k == length rest then none else some k

-- What `readv` reports: an error number, or the bytes that it placed.
pub data ReadOutcome : Type 0 where
  failed : ℕ → ReadOutcome
  received : Bytes → ReadOutcome

abbrev pub extrabuf_size : ℕ
extrabuf_size = 65536

-- The kernel fills the two parts of the vector and no more.
abbrev pub Fits : Buffer → ReadOutcome → Type 0
Fits b (failed e) = Unit
Fits b (received bytes) = length bytes ≤ writable_bytes b + extrabuf_size

-- The bytes that found room in the buffer, and the rest from `extrabuf`.
unfoldable pub receive : Allocator → Buffer → Bytes → Buffer
receive a b bytes =
    let room = writable_bytes b in
    let filled = record b.buffer {
      storage = write_at b.buffer.storage b.write_index (take room bytes);
    } in
    if leb (length bytes) room
    then record b { buffer = filled; write_index = b.write_index + length bytes }
    else append a (record b { buffer = filled; write_index = b.buffer.size }) (drop room bytes)

unfoldable pub read_fd : Allocator → Buffer → ReadOutcome → Buffer
unfolding receive
read_fd a b (failed e) = b
read_fd a b (received bytes) = receive a b bytes
