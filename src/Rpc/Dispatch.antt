-- ===== src/Rpc/Dispatch.antt =====
-- src/server/gamelogic/rpc-dispatchers.cpp: what a Lua process may ask of the server.
pub mod Guards
pub mod Guarded
pub mod Ordered
pub mod Saves
pub mod Tasks
pub mod Players
pub mod Rooms
pub mod Safe
pub mod Methods
pub mod Kept
pub mod Refused
pub mod InOrder
