-- ===== src/Net.antt =====
-- The event loop and the connections on it (src/net, include/net).
pub mod Channel
pub mod EventLoop
pub mod Connection
pub mod Server
pub mod Acceptor
pub mod Serving
mod Tests
