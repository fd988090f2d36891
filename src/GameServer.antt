-- ===== src/GameServer.antt =====
-- crates/game_server: token login, movement, world entry and score reports.
pub mod Token
pub mod Config
pub mod Logout
pub mod Backend
pub mod Session
pub mod Serve
