-- ===== src/Guard.antt =====
-- runtime/poller/poller_dispatch_guard.py: what one tick of the poller may dispatch.
pub mod Policy
pub mod Cards
pub mod Bound
pub mod Select
pub mod Agreement
pub mod Laws
pub mod Found
