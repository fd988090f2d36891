-- ===== src/DummyClient.antt =====
-- crates/dummy_client: the load client.
pub mod Counters
pub mod Client
pub mod Seeder
pub mod Console
pub mod Startup
