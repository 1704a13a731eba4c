-- ===== src/Clients.antt =====
-- runtime/poller/smoke_lib.py: the clients of Linear and of the database, over plain HTTP.
pub mod Json
pub mod Http
pub mod Labels
pub mod Linear
pub mod Database
