-- ===== src/LoginServer.antt =====
-- crates/login_server: login with a password, the token for the game server, and the admin API.
pub mod Backend
pub mod Authenticate
pub mod Config
pub mod Session
pub mod Serve
pub mod Admin
