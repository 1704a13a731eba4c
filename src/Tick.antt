-- ===== src/Tick.antt =====
-- runtime/poller/poller_tick.py: one tick of the poller, from the environment to the results.
pub mod Board
pub mod Nodes
pub mod Issues
pub mod Main
pub mod Guarded
pub mod Safety
pub mod Startup
pub mod Cards
pub mod Start
pub mod Moves
pub mod Bounds
