-- ===== src/LoginServer/Authenticate/Untouched.antt =====
-- What a refused login leaves of the stores: `authenticate` of crates/login_server/src/session.rs.
use rust_gameserver.LoginServer.Backend.{Backend}
