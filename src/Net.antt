-- ===== src/Net.antt =====
-- crates/net: the network layer that both servers and the client share.
pub mod Consts
pub mod Stats
pub mod Codec
pub mod Cancellation
pub mod Registry
pub mod Acceptor
pub mod Outbox
pub mod SelectLoop
pub mod Server
pub mod Monitor
