-- ===== src/Http/Connection/KeepAlive.antt =====
-- HTTP/HttpServer.cpp and net/TcpConnection.cpp: one request after the other on a connection.
use rabbit_server.Prelude.{
  ℕ, ◌≤◌, ◌<◌, ◌^◌, ◌≡◌, inl, refl, ap, ap₂, sym, subst, ◌∙◌, false, some, List, [], ◌∷◌, ◌++◌,
  arith, map, Bytes, length, Result, ok, ◌>>=◌, append_assoc, length-append,
}
use rabbit_server.Vector.{Allocator, capacity}
use rabbit_server.Buffer.Contents.{IsTidy, IsValid, length-contents}
use rabbit_server.Buffer.ReadFd.{capacity-read_fd, contents-read_fd}
use rabbit_server.Buffer.{Buffer, contents, default_init_size, received, read_fd}
use rabbit_server.Http.Connection.{HttpConnection, handle_readable}
use rabbit_server.Http.Connection.Sending.{served-IsIdle}
use rabbit_server.Http.Connection.Sent.{IsIdle, response_to}
use rabbit_server.Http.Connection.Served.{Served, handle_readable-Served}
use rabbit_server.Http.Context.Message.{
  Message, IsWellFormed, print, print_fields, request_line, start,
}
use rabbit_server.Http.Request.{Version}
use rabbit_server.Http.Response.Render.{head_text, render}
use rabbit_server.Http.Server.{HttpCallback}
use rabbit_server.Net.Connection.{TcpConnection, Effect, WriteOutcome, run, writable}
use rabbit_server.Net.Connection.Carries.{wire, wire-append}
use rabbit_server.Net.Connection.Closing.{total}

-- A request that arrives in one read, what the writes of its handler report, and the writes that follow.
pub record Exchange : Type 0 where
  pub message : Message
  pub now : ℕ
  pub outcomes : ℕ → WriteOutcome
  pub ready : List WriteOutcome

-- The requests one after the other, with the socket ready in between.
unfoldable pub converse :
    Allocator
    → HttpCallback
    → List Exchange
    → HttpConnection
    → Result (HttpConnection × List Effect)
converse a callback [] h = ok (h, [])
converse a callback (x ∷ xs) h =
    handle_readable a callback x.now x.outcomes h (received (print x.message [])) >>= λ (h1, es1).
    let (c, es2) = run a h1.connection (map writable x.ready) in
    converse a callback xs (record h1 { connection = c }) >>= λ (h2, es3).
    ok (h2, es1 ++ (es2 ++ es3))

-- What an exchange needs: a well-formed request that fits into the input buffer, a response that keeps the
-- connection and can be printed, and writes that take it.
pub record IsServable (callback : HttpCallback) (memory : ℕ) (x : Exchange) : Type 0 where
  pub well_formed : IsWellFormed x.message
  pub fits : length (print x.message []) ≤ memory
  pub keeps : (response_to callback x.now x.message).close_connection ≡ false
  pub head : length (head_text (response_to callback x.now x.message)) ≤ default_init_size
  pub body : length (response_to callback x.now x.message).body < 2 ^ 31
  pub taken : length (render (response_to callback x.now x.message)) ≤ total x.ready

abbrev pub AreServable : HttpCallback → ℕ → List Exchange → Type 0
AreServable callback memory [] = Unit {0}
AreServable callback memory (x ∷ xs) = IsServable callback memory x × AreServable callback memory xs

-- The responses, one behind the other.
abbrev pub responses : HttpCallback → List Exchange → Bytes
responses callback [] = []
responses callback (x ∷ xs) = render (response_to callback x.now x.message) ++ responses callback xs

-- The version that the context keeps.
abbrev pub last_version : Version → List Exchange → Version
last_version v [] = v
last_version v (x ∷ xs) = last_version x.message.version xs

pub record Conversed (a : Allocator) (callback : HttpCallback) (v : Version) (c : TcpConnection)
    (xs : List Exchange) : Type 0 where
  pub connection : TcpConnection
  pub effects : List Effect
  pub returns :
      converse a callback xs (record { context = some (start v); connection = c })
      ≡ ok (record { context = some (start (last_version v xs)); connection = connection }, effects)
  pub all_sent : wire effects ≡ responses callback xs
  pub idle : IsIdle connection

print-long : (m : Message) → 0 < length (print m [])
print-long m =
    omega (arith, length-append (request_line m) (b'\r' ∷ b'\n' ∷ print_fields m.fields []))

-- An input buffer with nothing readable, at the front of so much memory.
record IsClear (memory : ℕ) (b : Buffer) : Type 0 where
  empty : contents b ≡ []
  at_start : b.write_index ≡ 0
  room : capacity b.buffer ≡ memory

IsTidy-IsClear :
    (memory : ℕ) (b : Buffer) → IsValid b → contents b ≡ [] → IsTidy memory b → IsClear memory b
IsTidy-IsClear memory b v e t = record {
  empty = e;
  at_start = t.at_front (omega (arith, length-contents b v, ap length e));
  room = t.same_memory;
}

-- A whole request in one read.
read_fd-IsTidy :
    (a : Allocator) (memory : ℕ) (b : Buffer) (bytes : Bytes)
    → IsValid b
    → IsClear memory b
    → 0 < length bytes
    → length bytes ≤ memory
    → IsTidy memory (read_fd a b (received bytes))
read_fd-IsTidy a memory b bytes v clear pos fits =
    let (all, valid) =
      contents-read_fd a b (received bytes) v
        (inl (omega (arith, clear.at_start, clear.room, fits))) in
    record {
      same_memory =
          capacity-read_fd a b bytes v (omega (arith, clear.at_start, clear.room, fits))
          ∙ clear.room;
      at_front = λ z. absurd (
          omega (
            arith,
            z,
            pos,
            length-contents (read_fd a b (received bytes)) valid,
            ap length all,
            length-append (contents b) bytes,
          ));
    }

module _ (a : Allocator) (callback : HttpCallback) where
  converse-Conversed_clear :
      (memory : ℕ) (v : Version) (c : TcpConnection) (xs : List Exchange)
      → IsIdle c
      → IsClear memory c.in_buffer
      → AreServable callback memory xs
      → Conversed a callback v c xs
  unfolding converse
  converse-Conversed_clear memory v c [] i clear s = record {
    connection = c;
    effects = [];
    returns = refl;
    all_sent = refl;
    idle = i;
  }
  converse-Conversed_clear memory v c (x ∷ xs) i clear (s, ss) =
      let bytes = print x.message [] in
      let served : Served a callback x.now x.outcomes v x.message c bytes =
        handle_readable-Served a callback x.now x.outcomes v x.message c bytes i s.well_formed
          (ap (λ w. w ++ bytes) clear.empty) (print-long x.message)
          (inl (omega (arith, clear.at_start, clear.room, s.fits))) s.head s.body in
      let (idle, sent, same) =
        served-IsIdle a callback x.now x.outcomes v x.message c bytes served x.ready i s.taken in
      let tidy = served.tidy memory (
        read_fd-IsTidy a memory c.in_buffer bytes i.in_valid clear (print-long x.message) s.fits) in
      let d = (run a served.connection (map writable x.ready)).0 in
      let clear' : IsClear memory d.in_buffer =
        subst (IsClear memory) (sym same) (
          IsTidy-IsClear memory served.connection.in_buffer served.in_valid served.in_empty tidy) in
      let rest = converse-Conversed_clear memory x.message.version d xs idle clear' ss in
      let es2 = (run a served.connection (map writable x.ready)).1 in
      record {
        connection = rest.connection;
        effects = served.effects ++ (es2 ++ rest.effects);
        returns = rw (served.result, rest.returns) refl;
        all_sent =
            wire-append served.effects (es2 ++ rest.effects)
            ∙ ap (◌++◌ (wire served.effects)) (wire-append es2 rest.effects)
            ∙ sym (append_assoc (wire served.effects) (wire es2) (wire rest.effects))
            ∙ ap₂ (◌++◌) sent rest.all_sent;
        idle = rest.idle;
      }

  -- A connection that is kept serves any number of requests: from an idle connection with a context
  -- that expects a request line and an empty input buffer at its front, for requests that arrive one
  -- after the other, each whole in one read, well-formed and no longer than the memory of the input
  -- buffer, with responses that keep the connection, whose heads fit into 1024 bytes and bodies are
  -- below 2^31 bytes, and whose bytes the writes behind each request can take: no handler fails, the
  -- socket takes exactly the printed responses in the order of the requests, and the connection is
  -- idle again, its context reset but for the version.
  pub converse-Conversed :
      (v : Version) (c : TcpConnection) (xs : List Exchange)
      → IsIdle c
      → contents c.in_buffer ≡ []
      → c.in_buffer.write_index ≡ 0
      → AreServable callback (capacity c.in_buffer.buffer) xs
      → Conversed a callback v c xs
  converse-Conversed v c xs i empty front s =
      converse-Conversed_clear (capacity c.in_buffer.buffer) v c xs i
        (record { empty = empty; at_start = front; room = refl }) s
