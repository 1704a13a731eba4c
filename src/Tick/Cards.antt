-- ===== src/Tick/Cards.antt =====
-- What `start` does to the board, and what a card that it reads gives the run.
use hermes_agent_runtime.Base.{string_eq}
use hermes_agent_runtime.Kanban.Adapter.{Adapter}
use hermes_agent_runtime.Tick.Board.{Board}
