-- ===== src/Rpc.antt =====
-- src/server/rpc-lua and src/server/gamelogic/rpc-dispatchers.cpp: the calls between the server and
-- its Lua processes.
pub mod Packet
pub mod Encode
pub mod Builder
pub mod Read
pub mod Dispatch
mod Tests
