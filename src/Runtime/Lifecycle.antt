-- ===== src/Runtime/Lifecycle.antt =====
-- `execute` follows the protocol of a run.
pub mod Heartbeat
mod Calls
mod Worker
pub mod Handler
mod Run
mod Claim
pub mod Finish
pub use Claim.*
