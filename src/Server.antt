-- ===== src/Server.antt =====
-- src/server: the users, the rooms and the lobby of the server.
pub mod World
pub mod Users
pub mod Room
pub mod Leave
pub mod Game
pub mod Abandon
pub mod Threads
pub mod Settings
pub mod Lobby
pub mod Connection
pub mod Auth
pub mod Refresh
pub mod Heartbeat
pub mod Sound
pub mod Packets
pub mod Shell
pub mod Admin
pub mod Rates
pub mod TempBans
pub mod Steps
mod Tests
