-- ===== src/Conversations.antt =====
-- The follow-ups and continuations of conversations (harness/server/sessions.py).
pub mod Store
pub mod Reads
mod Life
mod Retry
mod Continue
mod Tests
