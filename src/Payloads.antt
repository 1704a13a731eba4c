-- ===== src/Payloads.antt =====
-- src/hermes_agent_runtime/payloads.py: the closed contract of the audit events' payloads.
pub mod Value
pub mod Contract
pub mod Url
pub mod Validate
pub mod Event
pub mod Normal
pub mod Closed
mod Tests
