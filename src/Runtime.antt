-- ===== src/Runtime.antt =====
-- src/hermes_agent_runtime/runtime.py: the lifecycle of one run.
pub mod Exceptions
pub mod Labels
pub mod Context
pub mod Events
pub mod Ids
pub mod Machine
pub mod Action
pub mod Execute
pub mod Triple
pub mod Protocol
pub mod Lifecycle
pub mod Completion
