-- ===== src/Env.antt =====
-- runtime/poller/poller_env.py: the secrets of the poller, from a file and the environment.
pub mod File
pub mod Process
pub mod Laws
pub mod Print
pub mod Missing
