-- ===== src/Lib.antt =====
-- RabbitServer is a small HTTP server on an event loop over epoll, in C++. This library models its
-- buffers, its HTTP parser and responses, the handlers of the HTTP server, the callback of the
-- sample program, and of the network part the channels, the poller, the TCP connections, the
-- timers, the event loop, its threads, the sockets and the server that owns the connections, and of
-- base the mutex, the condition and the threads.
--
-- How the parts work together: epoll reports ready descriptors to the poller (net/Poller.cpp),
-- which hands the loop the active channels (net/Channel.cpp). A channel calls the handlers of its
-- connection (net/TcpConnection.cpp), which read into the input buffer and write from the output
-- buffer (net/Buffer.cpp). The connection's message callback is the HTTP server's onMessage
-- (HTTP/HttpServer.cpp), which runs the parser (HTTP/HttpContext.cpp) on the input buffer, fills a
-- request (HTTP/HttpRequest.h), lets the user's callback make a response (HTTP/HttpResponse.cpp),
-- and sends its bytes. A channel of its own drives the timers (net/TimerQueue.cpp).
--
-- Prelude.antt passes on the names of the libraries and holds what the parts share: Boolean tests
-- and lists over the native numbers, bytes and the searches in them, decimal printing, and Result,
-- whose faults are a failed assert, a read outside the memory, the end of a loop's fuel, a use of a
-- deleted object and a call of abort. Vector.antt is the part of std::vector that the buffer relies
-- on: its memory and its size apart, with the allocator's growth as a parameter. Dict.antt is
-- std::map with strings for keys. Input.antt is the interface through which the parser uses the
-- buffer.
--
-- Buffer.antt models net/Buffer.h and net/Buffer.cpp: `buffer_`, `readIndex_` and `writeIndex_` are
-- the fields of Buffer, and append, retrieve, readFd and the others are functions of the same
-- names. Pointers into the buffer are offsets from peek(). Its child modules hold the invariant and
-- the retrieving operations (Contents), appending (Append), reading (ReadFd), the specification as
-- a queue of bytes (Queue), and the instance of Input (Input).
--
-- Http/Request.antt, Http/Context.antt, Http/Response.antt and Http/Server.antt model the files of
-- the directory HTTP. parse_request is parseRequest: one round of its while loop is parse_step, and
-- parse_loop runs them on fuel. The fuel is one more than the number of readable bytes, which is
-- enough since every round but the last takes two bytes or more. on_message gives the context and
-- the buffer it leaves and the list of its calls on the connection; the user's callback is a
-- parameter. Http/Connection.antt carries these calls out on the connection of Net/Connection.antt,
-- with the context that the connection keeps; what each `write` of a handler reports is a list of
-- arguments.
--
-- Sample.antt is the callback of test/main.cpp, with what its clock reads as an argument, and
-- Sample/Favicon.antt its table of bytes.
--
-- Net/Channel.antt, Net/Poller.antt, Net/Connection.antt, Net/Timestamp.antt, Net/TimerQueue.antt,
-- Net/EventLoop.antt, Net/EventLoopThread.antt, Net/EventLoopThreadPool.antt, Net/TcpServer.antt,
-- Net/NetAddr.antt, Net/Socket.antt and Net/Acceptor.antt model the files of the directory net of
-- the same names, Net/Connection.antt net/TcpConnection.cpp. A connection is a record, its handlers
-- give the new connection and a list of effects, and a history is a list of events, which the step
-- function runs; what write and readv report is part of the event. epoll is a record of operations
-- with the documented behaviour of epoll_ctl as laws. The heap of timers is a function from
-- pointers to timers, so that a use of a deleted timer is a fault; the clock is a function from the
-- number of its reading. A callback may add timers, whose pointers are new to the heap.
-- Net/EventLoop/Timers.antt has the loop's functions that add timers. The system calls of the
-- sockets are recorded in order; what each reports is an argument, and errno is unchanged where a
-- call succeeds.
--
-- Net/Reactor.antt puts the loop, the poller and the channels together: the iterations of loop()
-- over a heap of channels, where a pointer that epoll reports may be that of a deleted channel;
-- what the callbacks and functors do to channels comes as steps of the same relation, and
-- `IsPromised` is what epoll_wait documents.
--
-- The loop's thread and other threads are a step relation: a state has the phase of an iteration of
-- loop(), the counter of the eventfd, and the number of threads between a change of the loop and
-- their call of wakeup; what the functors do is a parameter. The same form has
-- Net/EventLoopThread.antt, where a critical section up to its end or its wait is a step, a wait
-- ends by a notify, and what may happen and need not stands in a relation of its own, and
-- Base/Mutex.antt, which models base/Mutex.h and base/Condtion.h with one pthread call or one
-- assignment as a step. So has Base/Thread.antt for base/Thread.cpp, where the owner, the new
-- thread and what the weak pointer to tid_ leads to are one state, and Net/EventLoop/Instances.antt
-- for the loops of all threads. Base/Condition.antt is base/Condition.cpp. The server takes the
-- effects of a connection's handlers in order. Net/TcpServer/System.antt is a server without
-- further threads with all of its connections and the functors that wait in its loop; a run is a
-- list of what happens in the order of the loop's thread.
--
-- Numbers: lengths and indices are C++ int values that stay below 2^31, and are plain numbers; the
-- bounds on printed numbers are stated where they matter. A double that holds microseconds is exact
-- below 2^53.
--
-- Not modelled: several threads' connections interleaved with the server's own thread, for which
-- only the choice of the loop is; the main function of the sample program; http/http_util.h, which
-- nothing includes; net/IgnoreSigPipe.h, which is one call of signal; and the type definitions and
-- macros of base. Printing to standard output is left out everywhere.
pub mod Prelude
pub mod Vector
pub mod Input
pub mod Buffer
pub mod Dict
pub mod Http
pub mod Net
pub mod Base
pub mod Sample
