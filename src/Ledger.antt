-- ===== src/Ledger.antt =====
-- The canonical event ledger of a process, one JSONL file for all tasks (harness/ledger/jsonl.py).
pub mod Models
pub mod Store
pub mod Numbering
pub mod Retry
pub mod Erasure
mod Tests
