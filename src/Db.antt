-- ===== src/Db.antt =====
-- crates/db: password hashes and the notice subscription.
pub mod Password
pub mod Broadcast
pub mod Pools
