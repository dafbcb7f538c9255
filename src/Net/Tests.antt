-- ===== src/Net/Tests.antt =====
-- A connection, a queue of timers and an epoll instance, and the theorems on net/ applied to them.
mod Epolls
mod Loop
mod Sockets
mod Server
mod Reactor
mod Timers
use rabbit_server.Prelude.{
  ℕ, ◌+◌, ◌≤◌, ◌<◌, ◌≡◌, ◌≢◌, ◌⊎◌, inl, refl, true, false, Option, none, some, List, [], ◌∷◌, ◌++◌,
  arith, codes, if◌then◌else◌, ◌==◌, replicate, ok, map,
}
use rabbit_server.Vector.{doubling}
use rabbit_server.Buffer.Contents.{IsValid}
use rabbit_server.Buffer.{Buffer, append, ensure_writable, readable_bytes}
use rabbit_server.Net.Channel.{
  Channel, Events, no_event, new_channel, enable_writing, handle_event-calls, calls, handle_event,
  read, write, error, close, hup,
}
use rabbit_server.Net.Connection
use rabbit_server.Net.Connection.Stream.{AdmitsAll, done, next, accepted_all, run-stream}
use rabbit_server.Net.Connection.Carries.{wire, pending}
use rabbit_server.Net.Connection.Interest.{IsWatched, run-IsWatched}
use rabbit_server.Net.Connection.Lifecycle.{
  close_count, open_count, run_closes_once, handle_write_disconnecting,
}
use rabbit_server.Net.Connection.Closing.{Closed, closing, run-Closed}
use rabbit_server.Net.Connection.{
  TcpConnection, connected, disconnected, disconnecting, Event, sends, writable, written,
  handle_write,
}
use rabbit_server.Net.Tests.Epolls.{table}
use rabbit_server.Net.Poller.Registration.{unknown, Tracks, change-Tracks}
use rabbit_server.Net.Poller.{Epoll, Operation, add, del, mod', writing_on, change, poll, ready}
use rabbit_server.Net.Timestamp.{Printed, to_string-Printed}
use rabbit_server.Net.TimerQueue
use rabbit_server.Net.TimerQueue.Order.{AllBefore, AllFrom, IsSorted, get_expired_timers_lem}
use rabbit_server.Net.TimerQueue.Adding.{IsOwned}
use rabbit_server.Net.TimerQueue.Ownership.{handle_read_lem}
use rabbit_server.Net.TimerQueue.Heap.{Live}
use rabbit_server.Net.TimerQueue.{Timer, TimerQueue, get_expired_timers, front}

abbrev small : Buffer
small = record {
  buffer = record { storage = replicate 8 0; size = 8 };
  read_index = 0;
  write_index = 0;
}

small-IsValid : IsValid small
small-IsValid = record {
  read-le-write = omega arith;
  write-le-capacity = omega arith;
  size-le-capacity = omega arith;
}

abbrev open' : TcpConnection
open' = record {
  name = codes "Tcp#0";
  state = connected;
  channel = record (new_channel 5) { events = record no_event { epollin = true; epollpri = true } };
  in_buffer = small;
  out_buffer = small;
}

-- The socket takes two bytes of the first call's, and then the rest.
abbrev history : List Event
history =
    sends (codes "abc") (written 2) ∷ sends (codes "de") (written 0) ∷ writable (written 3) ∷ []

history-AdmitsAll : AdmitsAll doubling open' history
unfolding Connection.step Connection.send Connection.send_in_loop append ensure_writable
    enable_writing
history-AdmitsAll = next (inl (omega arith)) (next (inl (omega arith)) (next tt done))

run-stream_example :
    wire (Connection.run doubling open' history).1
      ++ pending (Connection.run doubling open' history).0
    ≡ pending open' ++ accepted_all doubling open' history
run-stream_example = run-stream doubling open' history small-IsValid history-AdmitsAll

open-IsWatched : IsWatched open'
open-IsWatched = record { begun = refl; waits = λ _. refl; flag = refl; drains = λ e. cc }

run-IsWatched_example : IsWatched (Connection.run doubling open' history).0
run-IsWatched_example =
    run-IsWatched doubling open' history small-IsValid history-AdmitsAll open-IsWatched

run_closes_once_example :
    close_count (Connection.run doubling open' history).1
      + open_count (Connection.run doubling open' history).0.state
    ≤ 1
run_closes_once_example = run_closes_once doubling open' history

change-Tracks_example :
    Tracks table 3 writing_on
      (λ _. none)
      (new_channel 5)
      (change table 3 writing_on (λ _. none) (new_channel 5)).0
      (change table 3 writing_on (λ _. none) (new_channel 5)).1
unfolding table
change-Tracks_example =
    change-Tracks table 3 writing_on (λ _. none) (new_channel 5) (unknown refl refl)

-- One timer that is late and repeats, and one that is not.
abbrev late_timer : Timer
late_timer = record { callback = 1; expiration = 3; repeat = true; interval = 2 }

abbrev other_timer : Timer
other_timer = record { callback = 2; expiration = 9; repeat = false; interval = 0 }

abbrev two_timers : TimerQueue
two_timers = record {
  timers = (3, 0) ∷ (9, 1) ∷ [];
  expired = [];
  heap = λ p. if p == 0 then some late_timer else some other_timer;
  ran = [];
}

two_timers-IsOwned : IsOwned [] [] two_timers
two_timers-IsOwned = record {
  present = late_timer ∷ other_timer ∷ [];
  apart = ((omega arith, tt), (tt, tt));
  waiting_live = tt;
  present_live = (refl, refl, (refl, refl, tt));
  sorted = (omega arith, (omega arith, tt));
}

handle_read_example :
    (early late : List Timer) × (q' : TimerQueue) × (early ++ late ≡ two_timers-IsOwned.present)
    × Live two_timers.heap (front 5 two_timers.timers) early
    × (TimerQueue.handle_read (λ n f. []) (λ n. n + 5) two_timers ≡ ok q')
    × (q'.ran ≡ map (λ t. t.callback) early)
    × IsOwned [] [] q'
handle_read_example = handle_read_lem (λ n f. []) (λ n. n + 5) two_timers two_timers-IsOwned

run-Closed_example :
    Closed (Connection.run doubling open' (closing (written 3 ∷ [])))
    × (wire (Connection.run doubling open' (closing (written 3 ∷ []))).1 ≡ pending open')
run-Closed_example =
    run-Closed doubling open' (written 3 ∷ []) refl small-IsValid open-IsWatched (omega arith)
