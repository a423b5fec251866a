-- ===== src/Context.antt =====
-- The text budget of the model's input: truncation to tokens and the work packet
-- (harness/context/compiler.py, harness/orchestration/core.py `build_work_packet`).
pub mod Compiler
pub mod Packet
pub mod Budget
mod Tests
