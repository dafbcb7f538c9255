-- ===== src/Net/Connection.antt =====
-- net/TcpConnection.h and net/TcpConnection.cpp. All handlers run in the thread of the connection's
-- loop, so that `assertInLoopThread` holds; `send` may be called elsewhere, and is told where. What a
-- handler does outside the connection is a list of effects, in order. `write` and `readv` enter by
-- what they report.
pub mod Carries
pub mod Stream
pub mod Lifecycle
pub mod Interest
pub mod HangUp
pub mod Closing
use rabbit_server.Prelude.{
  ℕ, ◌+◌, ◌-◌, ◌≤◌, Bool, true, false, not, ◌&&◌, ◌||◌, Option, none, some, List, [], ◌∷◌, ◌++◌,
  if◌then◌else◌, ◌==◌, ltb, Bytes, length, take, drop,
}
use rabbit_server.Vector.{Allocator}
use rabbit_server.Buffer.{
  Buffer, contents, readable_bytes, append, retrieve, ReadOutcome, failed, received, read_fd, init,
  default_init_size,
}
use rabbit_server.Net.Channel.{
  set_read_callback, set_write_callback, set_error_callback, set_close_callback, set_hup_callback,
  Channel, Callbacks, new_channel, enable_reading, enable_writing, disable_writing, disable_all,
  tie,
}

pub data State : Type 0 where
  connecting connected disconnected disconnecting : State

pub record TcpConnection : Type 0 where
  pub name : Bytes
  pub state : State
  pub channel : Channel
  pub in_buffer : Buffer
  pub out_buffer : Buffer

-- The constructor.
unfoldable pub new_connection : Bytes → ℕ → TcpConnection
new_connection name fd = record {
  name = name;
  state = connecting;
  channel = new_channel fd;
  in_buffer = init default_init_size;
  out_buffer = init default_init_size;
}

pub data Effect : Type 0 where
  -- bytes that the kernel took
  wrote : Bytes → Effect
  -- `update` and `remove` of the channel
  updates : Effect
  removes : Effect
  -- the callbacks of the user and of the server
  connection_callback : Effect
  message_callback : Effect
  close_callback : Effect
  remove_from_map : Effect
  -- functors for the loop: `closeConnectionInLoop`, `sendInLoop`
  queue_close : Effect
  queue_send : Bytes → Effect

abbrev pub Handled : Type 0
Handled = TcpConnection × List Effect

-- The outcome of `write`: an error number, or how many bytes went.
pub data WriteOutcome : Type 0 where
  write_failed : ℕ → WriteOutcome
  written : ℕ → WriteOutcome

abbrev pub count_of : WriteOutcome → ℕ
count_of (write_failed e) = 0
count_of (written n) = n

abbrev pub is_connected : State → Bool
is_connected connected = true
is_connected _ = false

abbrev pub is_disconnecting : State → Bool
is_disconnecting disconnecting = true
is_disconnecting _ = false

abbrev pub is_connecting : State → Bool
is_connecting connecting = true
is_connecting _ = false

abbrev set_callbacks : Channel → Channel
set_callbacks c =
    set_hup_callback
      (set_write_callback (set_error_callback (set_close_callback (set_read_callback c))))

-- `connectionEstablish`.
unfoldable pub connection_establish : TcpConnection → Handled
connection_establish c = (
  record c { state = connected; channel = enable_reading (set_callbacks (tie c.channel)) },
  updates ∷ connection_callback ∷ [],
)

-- `handleClose`.
unfoldable pub handle_close : TcpConnection → Handled
handle_close c =
    if is_disconnecting c.state || is_connected c.state
    then (
      record c { state = disconnected; channel = disable_all c.channel },
      updates ∷ close_callback ∷ [],
    )
    else (c, [])

-- `Channel::remove` of its channel.
abbrev pub remove_channel : TcpConnection → Handled
remove_channel c = (record c { channel = disable_all c.channel }, updates ∷ removes ∷ [])

abbrev pub then_do : Handled → (TcpConnection → Handled) → Handled
then_do (c, es) f = let r = f c in (r.0, es ++ r.1)

-- `connectionDestroyed`.
unfoldable pub connection_destroyed : TcpConnection → Handled
connection_destroyed c =
    then_do
      (if is_connected c.state || is_disconnecting c.state
        then (record c { state = disconnected; channel = disable_all c.channel }, updates ∷ [])
        else (c, []))
      remove_channel

-- `handleHup`.
unfoldable pub handle_hup : TcpConnection → Handled
unfolding connection_destroyed
handle_hup c = then_do (connection_destroyed c) (λ d. (d, remove_from_map ∷ []))

-- `handleRead`: no bytes is the end of the stream.
unfoldable pub handle_read : Allocator → TcpConnection → ReadOutcome → Handled
unfolding handle_close
handle_read a c (failed e) = (record c { in_buffer = read_fd a c.in_buffer (failed e) }, [])
handle_read a c (received []) =
    handle_close (record c { in_buffer = read_fd a c.in_buffer (received []) })
handle_read a c (received (x ∷ xs)) =
    (record c { in_buffer = read_fd a c.in_buffer (received (x ∷ xs)) }, message_callback ∷ [])

-- `closeConnection`.
unfoldable pub close_connection : TcpConnection → Handled
close_connection c =
    (c, if is_connected c.state || is_connecting c.state then queue_close ∷ [] else [])

-- `closeConnectionInLoop`.
unfoldable pub close_connection_in_loop : TcpConnection → Handled
unfolding handle_close
close_connection_in_loop c =
    if is_connected c.state || is_connecting c.state
    then (if not c.channel.writing
        then handle_close c
        else (record c { state = disconnecting }, []))
    else (c, [])

-- Whether `sendInLoop` writes at once, and how many bytes then go.
abbrev pub is_direct : TcpConnection → Bool
is_direct c = not c.channel.writing && readable_bytes c.out_buffer == 0

abbrev pub direct_count : TcpConnection → WriteOutcome → ℕ
direct_count c outcome = if is_direct c then count_of outcome else 0

-- The rest goes to the output buffer, and the channel waits for room.
unfoldable pub keep_rest : Allocator → TcpConnection → Bytes → Handled
keep_rest a c rest =
    let kept = record c { out_buffer = append a c.out_buffer rest } in
    if not c.channel.writing
    then (record kept { channel = enable_writing c.channel }, updates ∷ [])
    else (kept, [])

-- `sendInLoop`.
unfoldable pub send_in_loop : Allocator → TcpConnection → Bytes → WriteOutcome → Handled
unfolding keep_rest
send_in_loop a c bytes outcome =
    let n = direct_count c outcome in
    then_do (c, if is_direct c then wrote (take n bytes) ∷ [] else [])
      (λ d. if ltb n (length bytes) then keep_rest a d (drop n bytes) else (d, []))

-- `send`; the flag is `isInLoopThread()`.
unfoldable pub send : Allocator → Bool → TcpConnection → Bytes → WriteOutcome → Handled
unfolding send_in_loop
send a in_loop c bytes outcome =
    if is_connected c.state
    then (if in_loop then send_in_loop a c bytes outcome else (c, queue_send bytes ∷ []))
    else (c, [])

-- When the output buffer is empty again.
unfoldable pub drained : TcpConnection → Handled
unfolding handle_close
drained c =
    then_do (record c { channel = disable_writing c.channel }, updates ∷ [])
      (λ d. if is_disconnecting d.state then handle_close d else (d, []))

-- `handleWrite`.
unfoldable pub handle_write : TcpConnection → WriteOutcome → Handled
unfolding drained
handle_write c outcome =
    let n = count_of outcome in
    let left = record c { out_buffer = (retrieve c.out_buffer n).0 } in
    let sent =
      then_do (left, wrote (take n (contents c.out_buffer)) ∷ [])
        (λ d. if readable_bytes d.out_buffer == 0 then drained d else (d, [])) in
    if c.channel.writing && ltb 0 n then sent else (c, [])

-- What can happen to a connection: a call of `send` in the loop's thread, a functor of `sendInLoop`
-- that another thread queued, a ready socket, a call of `closeConnection`, its functor, a hang-up,
-- and the server's functor `connectionDestroyed`.
pub data Event : Type 0 where
  sends runs_send : Bytes → WriteOutcome → Event
  writable : WriteOutcome → Event
  readable : ReadOutcome → Event
  closes runs_close hangs_up destroys : Event

unfoldable pub step : Allocator → TcpConnection → Event → Handled
unfolding send
step a c (sends bytes outcome) = send a true c bytes outcome
step a c (runs_send bytes outcome) = send_in_loop a c bytes outcome
step a c (writable outcome) = handle_write c outcome
step a c (readable outcome) = handle_read a c outcome
step a c closes = close_connection c
step a c runs_close = close_connection_in_loop c
step a c hangs_up = handle_hup c
step a c destroys = connection_destroyed c

unfoldable pub run : Allocator → TcpConnection → List Event → Handled
run a c [] = (c, [])
run a c (e ∷ es) = let r = step a c e in let rest = run a r.0 es in (rest.0, r.1 ++ rest.1)
