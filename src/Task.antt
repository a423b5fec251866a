-- ===== src/Task.antt =====
-- The task: its request, its durable ledger, one step of the agent, progress, and the route that
-- follows a step (harness/models, harness/state/progress.py, harness/orchestration).
pub mod Models
pub mod Progress
pub mod Stagnation
pub mod Reduce
pub mod Keys
pub mod Records
pub mod Routes
pub mod Repeats
pub mod Tests
