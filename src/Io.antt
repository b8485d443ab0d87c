-- ===== src/Io.antt =====
-- src/tdk/io: buffers for system calls, and TCP sockets and channels on epoll.
pub mod Adapter
pub mod Task
pub mod System
pub mod Result
pub mod Socket
pub mod SocketEvents
pub mod SocketConnect
mod SocketTests
pub mod Channel
pub mod ChannelEvents
mod ChannelTests
pub mod Pipeline
pub mod Connector
pub mod Acceptor
