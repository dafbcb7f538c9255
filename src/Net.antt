-- ===== src/Net.antt =====
-- The directory net, but for its buffer: channels and the poller, connections, timers, loops.
pub mod Channel
pub mod Poller
pub mod Reactor
pub mod Connection
pub mod Timestamp
pub mod TimerQueue
pub mod EventLoop
pub mod EventLoopThreadPool
pub mod TcpServer
pub mod EventLoopThread
pub mod NetAddr
pub mod Socket
pub mod Acceptor
mod Tests
