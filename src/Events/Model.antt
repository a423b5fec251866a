-- ===== src/Events/Model.antt =====
-- `HarnessEvent` of harness/state/events.py. The payload, a `dict[str, Any]`, is a type of which the
-- code knows equality. The timestamp is in microseconds.
use adk_coding_agent.Prelude.{ℕ, String, Option}

pub record HarnessEvent (P : Type 0) : Type 0 where
  pub event_id : String
  pub task_id : String
  pub sequence : ℕ
  pub kind : String
  pub payload : P
  pub timestamp : ℕ
  pub idempotency_key : Option String
