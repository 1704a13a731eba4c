-- ===== src/Supabase.antt =====
-- src/hermes_agent_runtime/supabase.py: the store behind PostgREST.
pub mod Http
pub mod Store
pub mod Laws
