-- ===== src/LoginServer/Admin.antt =====
-- crates/login_server/src/admin: the HTTP interface for operators.
pub mod SessionKey
pub mod Handlers
pub mod Scores
pub mod Router
pub mod Server
pub mod Start
