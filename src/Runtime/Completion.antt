-- ===== src/Runtime/Completion.antt =====
-- A run for which `execute` returns has passed its gates.
mod Answers
mod Calm
mod Stored
mod Gates
mod Run
mod Refused
pub use Gates.{Completed}
pub use Run.{execute-Completed, execute-run_id}
pub use Refused.{execute-refused}
