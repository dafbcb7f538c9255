-- ===== src/Net/Tests/Loop.antt =====
-- A loop, a pool and a server, and the theorems on net/EventLoop.cpp, net/EventLoopThread.cpp,
-- net/EventLoopThreadPool.cpp and net/TcpServer.cpp applied to them.
use rabbit_server.Prelude.{
  ℕ, ◌+◌, ◌<◌, ◌≡◌, ◌⊎◌, inl, refl, true, false, none, some, List, [], ◌∷◌, ◌++◌, arith, codes,
  equal, ok, fault, assertion, ◌>>=◌, replicate,
}
use rabbit_server.Dict.{lookup}
use rabbit_server.Vector.{doubling}
use rabbit_server.Buffer.{Buffer, received}
use rabbit_server.Net.Channel.{new_channel}
use rabbit_server.Net.Connection
use rabbit_server.Net.Connection.{
  TcpConnection, connected, Event, closes, runs_close, readable, hangs_up,
}
use rabbit_server.Net.EventLoop.{
  EventLoop, new_loop, handling, push, Request, queues, Reachable, start, step, other_pushes,
  poll_returns, do_pending_functors,
}
use rabbit_server.Net.EventLoop.Wakeup.{signals, Reachable-signals}
use rabbit_server.Net.EventLoop.Order.{to_run, Reachable-queued}
use rabbit_server.Net.EventLoop.Pending.{do_pending_functors_lem}
use rabbit_server.Net.EventLoop.Instances
use rabbit_server.Net.EventLoop.Instances.{
  Instances, no_instances, set, construct, is_in_loop_thread, Reachable-one_loop,
}
use rabbit_server.Net.EventLoopThreadPool
use rabbit_server.Net.EventLoopThreadPool.{
  new_pool, set_thread_num, get_loop_for_hash, get_next_loop,
}
use rabbit_server.Net.EventLoopThreadPool.RoundRobin.{nth_call, start-nth_call}
use rabbit_server.Net.EventLoopThread.Protocol.{Reachable-owner, stop_before_loop}
use rabbit_server.Net.EventLoopThread.Progress.{Settles, Reachable-Settles}
use rabbit_server.Net.EventLoopThread
use rabbit_server.Net.EventLoopThread.{
  EventLoopThread, new_thread, published, looping, ended, aborted, has_loop, joining, idle,
  waits_for_loop, waits_for_end, starts, awaits, publishes, enters, blocks, stops, enter_loop,
  stop_loop,
}
use rabbit_server.Net.TcpServer.{ConnectionPtr, TcpServer, new_server, new_connection, serve}
use rabbit_server.Net.TcpServer.Names.{
  Accepted, IsFresh, IsFresh-new_server, new_connection-Accepted,
}
use rabbit_server.Net.TcpServer.Removal.{serve-run_close_hup}

-- Functor 7 queues functor 8.
abbrev body : ℕ → List Request
body n = queues 8 ∷ []

abbrev pushed : EventLoop
pushed = record (push 7 new_loop) { in_flight = 1 }

pushed-Reachable : Reachable body pushed
pushed-Reachable = step start (other_pushes 7)

Reachable-signals_example : 0 < signals pushed
Reachable-signals_example = Reachable-signals body pushed pushed-Reachable refl (inl (λ e. cc))

Reachable-queued_example :
    pushed.queued ≡ pushed.ran ++ (to_run pushed.phase ++ pushed.pending_functors)
Reachable-queued_example = Reachable-queued body pushed pushed-Reachable

abbrev woken : EventLoop
woken = record pushed { phase = handling }

do_pending_functors_example :
    Reachable body (do_pending_functors body woken)
    × ((do_pending_functors body woken).ran ≡ 7 ∷ [])
    × ((do_pending_functors body woken).pending_functors ≡ 8 ∷ [])
    × ((do_pending_functors body woken).calling_pending_functors ≡ false)
do_pending_functors_example =
    do_pending_functors_lem body woken (step pushed-Reachable (poll_returns refl)) refl

start-nth_call_example :
    (EventLoopThreadPool.start (λ i. i + 100) (set_thread_num 3 (new_pool 9)) >>= λ p.
    nth_call 7 p >>= λ (l, p'). ok l)
    ≡ ok 101
start-nth_call_example = start-nth_call (λ i. i + 100) 9 3 7

abbrev server : TcpServer
server = record (new_server 9 (codes "Tcp")) {
  loops_thread_pool = record (new_pool 9) { started = true };
}

server-IsFresh : IsFresh server
server-IsFresh = record { free = λ i h k. (IsFresh-new_server 9 (codes "Tcp")).free i h k }

base_loop : get_next_loop server.loops_thread_pool ≡ ok (9, server.loops_thread_pool)
unfolding get_next_loop
base_loop = refl

new_connection-Accepted_example : Accepted 5 server (new_connection 5 server)
new_connection-Accepted_example =
    new_connection-Accepted 5 server 9 server.loops_thread_pool server-IsFresh (omega arith)
      base_loop

abbrev conn : ConnectionPtr
conn = record { pointer = 5; name = codes "Tcp#0"; loop = 9 }

abbrev serving : TcpServer
serving = record server { connections = (codes "Tcp#0", conn) ∷ []; next_connection_id = 1 }

conn_found : lookup conn.name serving.connections ≡ some conn
unfolding lookup equal
conn_found = refl

abbrev empty_buffer : Buffer
empty_buffer = record {
  buffer = record { storage = replicate 8 0; size = 8 };
  read_index = 0;
  write_index = 0;
}

abbrev established : TcpConnection
established = record {
  name = codes "Tcp#0";
  state = connected;
  channel = new_channel 5;
  in_buffer = empty_buffer;
  out_buffer = empty_buffer;
}

serve-run_close_hup_example :
    serve
      (Connection.run doubling established (readable (received []) ∷ hangs_up ∷ [])).1
      conn
      serving
    ≡ fault assertion
serve-run_close_hup_example =
    serve-run_close_hup doubling established conn conn serving refl conn_found

-- The owner has the loop, and its thread has not entered it.
abbrev handed_over : EventLoopThread
handed_over = record {
  thread = published;
  owner = has_loop;
  loop_set = true;
  quit = false;
  asleep = false;
  blocked = false;
  woken = false;
}

handed_over-Reachable : EventLoopThread.Reachable handed_over
handed_over-Reachable =
    EventLoopThread.step
      (EventLoopThread.step (EventLoopThread.step EventLoopThread.begin (starts refl))
        (publishes refl))
      (awaits refl refl)

Reachable-owner_example :
    ((has_loop ≡ has_loop)
      × (true ≡ true)
      × (false ≡ false)
      × ((published ≡ published) ⊎ (published ≡ looping)))
    ⊎ (((handed_over.owner ≡ joining)
          × (handed_over.loop_set ≡ false)
          × (handed_over.thread ≡ ended))
        ⊎ ((handed_over.owner ≡ idle)
            ⊎ ((handed_over.owner ≡ waits_for_loop) ⊎ (handed_over.owner ≡ waits_for_end))))
Reachable-owner_example = Reachable-owner handed_over handed_over-Reachable

-- The owner waits for the end of a loop whose thread is in `Poll`.
abbrev sleeping : EventLoopThread
sleeping = record {
  thread = looping;
  owner = waits_for_end;
  loop_set = true;
  quit = true;
  asleep = true;
  blocked = true;
  woken = true;
}

sleeping-Reachable : EventLoopThread.Reachable sleeping
sleeping-Reachable =
    EventLoopThread.step
      (EventLoopThread.step (EventLoopThread.step handed_over-Reachable (enters refl))
        (blocks refl refl refl))
      (stops refl)

Reachable-Settles_example : Settles sleeping
Reachable-Settles_example = Reachable-Settles sleeping sleeping-Reachable

stop_before_loop_example :
    EventLoopThread.Reachable (enter_loop (stop_loop handed_over))
    × ((enter_loop (stop_loop handed_over)).thread ≡ aborted)
stop_before_loop_example = stop_before_loop handed_over handed_over-Reachable refl refl

-- It knows the text of one address.
abbrev one_instance : Instances
one_instance = record {
  loop_in_this_thread = set 3 (some 1) no_instances.loop_in_this_thread;
  thread_id = set 1 (some 3) no_instances.thread_id;
}

one_instance-Reachable : Instances.Reachable one_instance
unfolding construct
one_instance-Reachable = Instances.constructs 3 1 Instances.begin refl refl

Reachable-one_loop_example :
    ((is_in_loop_thread 3 1 one_instance ≡ true) → ◌≡◌ {A = ℕ} 1 1)
    × (construct 3 1 one_instance ≡ none)
Reachable-one_loop_example = Reachable-one_loop one_instance 3 1 1 one_instance-Reachable refl
