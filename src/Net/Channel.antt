-- ===== src/Net/Channel.antt =====
-- net/Channel.h and net/Channel.cpp. A set of epoll flags is a record of Booleans, one for each flag
-- that the code names; a callback is known by its name, and by whether it was set.
use rabbit_server.Prelude.{
  ℕ, ◌≡◌, Bool, true, false, not, ◌&&◌, ◌||◌, List, [], ◌∷◌, ◌++◌, arith, if◌then◌else◌,
}

pub record Events : Type 0 where
  pub epollin : Bool
  pub epollpri : Bool
  pub epollout : Bool
  pub epollerr : Bool
  pub epollhup : Bool
  pub epollrdhup : Bool

abbrev pub no_event : Events
no_event = record {
  epollin = false;
  epollpri = false;
  epollout = false;
  epollerr = false;
  epollhup = false;
  epollrdhup = false;
}

pub data Callback : Type 0 where
  read write error close hup : Callback

-- Which callbacks are not empty functions.
pub record Callbacks : Type 0 where
  pub has_read : Bool
  pub has_write : Bool
  pub has_error : Bool
  pub has_close : Bool
  pub has_hup : Bool

-- `kNew` and `kAdded`.
pub data Index : Type 0 where
  new added : Index

pub record Channel : Type 0 where
  pub fd : ℕ
  pub index : Index
  pub events : Events
  pub revents : Events
  pub tied : Bool
  pub writing : Bool
  pub callbacks : Callbacks

-- The constructor.
abbrev pub new_channel : ℕ → Channel
new_channel fd = record {
  fd = fd;
  index = new;
  events = no_event;
  revents = no_event;
  tied = false;
  writing = false;
  callbacks = record {
    has_read = false;
    has_write = false;
    has_error = false;
    has_close = false;
    has_hup = false;
  };
}

-- The callbacks are set to functions that are not empty.
abbrev pub set_read_callback : Channel → Channel
set_read_callback c = record c { callbacks = record c.callbacks { has_read = true } }

abbrev pub set_write_callback : Channel → Channel
set_write_callback c = record c { callbacks = record c.callbacks { has_write = true } }

abbrev pub set_error_callback : Channel → Channel
set_error_callback c = record c { callbacks = record c.callbacks { has_error = true } }

abbrev pub set_close_callback : Channel → Channel
set_close_callback c = record c { callbacks = record c.callbacks { has_close = true } }

abbrev pub set_hup_callback : Channel → Channel
set_hup_callback c = record c { callbacks = record c.callbacks { has_hup = true } }

-- The changes of `events_` and `writing_`; each is followed by a call of `update`.
unfoldable pub enable_reading : Channel → Channel
enable_reading c = record c { events = record c.events { epollin = true; epollpri = true } }

unfoldable pub disable_reading : Channel → Channel
disable_reading c = record c { events = record c.events { epollin = false; epollpri = false } }

unfoldable pub enable_writing : Channel → Channel
enable_writing c = record c { events = record c.events { epollout = true }; writing = true }

unfoldable pub disable_writing : Channel → Channel
disable_writing c = record c { events = record c.events { epollout = false }; writing = false }

unfoldable pub disable_all : Channel → Channel
disable_all c = record c { events = no_event; writing = false }

unfoldable pub tie : Channel → Channel
tie c = record c { tied = true }

abbrev call_if : Bool → Callback → List Callback
call_if b k = if b then k ∷ [] else []

-- `handleEventWithGuard`: the callbacks that it calls, in order.
unfoldable pub dispatch : Channel → List Callback
dispatch c =
    let r = c.revents in
    let has = c.callbacks in
    (if r.epollerr then call_if has.has_error error else [])
    ++ ((if r.epollin || r.epollpri || r.epollrdhup || r.epollhup
          then (if r.epollhup then call_if has.has_hup hup else call_if has.has_read read)
          else [])
        ++ (if r.epollout then call_if has.has_write write else []))

-- `handleEvent`; the flag says whether the object that the channel is tied to still lives.
unfoldable pub handle_event : Bool → Channel → List Callback
unfolding dispatch
handle_event alive c = if c.tied then (if alive then dispatch c else []) else dispatch c

abbrev same : Callback → Callback → Bool
same read read = true
same write write = true
same error error = true
same close close = true
same hup hup = true
same _ _ = false

abbrev pub calls : Callback → List Callback → Bool
calls k [] = false
calls k (j ∷ js) = same k j || calls k js

-- Each callback is called exactly when its events are there, it is set, and the owner is not known
-- to be gone: a hang-up is handled in place of reading, and the close callback is never called.
pub handle_event-calls :
    (alive : Bool) (c : Channel)
    → let live = not c.tied || alive in
      let r = c.revents in
      let has = c.callbacks in
      (calls error (handle_event alive c) ≡ live && r.epollerr && has.has_error)
      × (calls hup (handle_event alive c) ≡ live && r.epollhup && has.has_hup)
      × (calls read (handle_event alive c)
          ≡ live && (r.epollin || r.epollpri || r.epollrdhup) && not r.epollhup && has.has_read)
      × (calls write (handle_event alive c) ≡ live && r.epollout && has.has_write)
      × (calls close (handle_event alive c) ≡ false)
unfolding handle_event
handle_event-calls alive c = ground arith
