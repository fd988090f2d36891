-- ===== src/Examples.antt =====
-- The parameters of the model as concrete functions, and the theorems at concrete inputs.
pub mod Params
pub mod Tokens
mod Serve
mod Ledger
mod Startup
mod Router
mod LoginServe
mod Wire
mod Registry
mod Guard
mod Login
mod Game
mod Admin
mod Dummy
mod Talk
mod Play
