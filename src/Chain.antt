-- ===== src/Chain.antt =====
-- src/hermes_agent_runtime/selector.py, poller.py and orchestrator.py: from the issues that Linear
-- lists to the runs of one pass.
pub mod Selector
pub mod Poller
pub mod Orchestrator
pub mod Laws
pub mod Claims
pub mod Results
