-- ===== src/Verification.antt =====
-- The verification of a task: what a check can prove, the scope of the changes and the report that
-- decides completion (harness/verification/).
pub mod Contracts
pub mod Scope
pub mod Counts
pub mod Report
pub mod Runner
pub mod Services
pub mod Managed
mod Verdict
mod InScope
mod Plan
mod Cleared
mod Tests
