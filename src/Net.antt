-- ===== src/Net.antt =====
-- tcp_server/src: the connection and the protocol of the TCP server and its client.
pub mod Socket
pub mod Protocol
pub mod ThreadPool
pub mod Server
pub mod Client
mod Tests
