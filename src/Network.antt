-- ===== src/Network.antt =====
-- src/network: the packets that a client sends, and the sockets and routers that carry them.
mod Tests
pub mod Builder
pub mod Buffer
pub mod Router
pub mod Sender
