-- ===== src/Kanban.antt =====
-- src/hermes_agent_runtime/kanban.py and adapter.py: the dispatcher that waits for a Kanban card.
pub mod Snapshot
pub mod Adapter
pub mod Waiting
pub mod Fields
pub mod Audit
