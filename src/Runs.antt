-- ===== src/Runs.antt =====
-- The durable runs of the server, their public events and the live fan-out
-- (harness/server/registry.py).
pub mod Models
pub mod Store
pub mod Append
pub mod Terminal
pub mod Replay
pub mod Broker
pub mod Journal
mod Rows
mod Batch
mod Retry
mod Advance
mod Registry
mod Moves
mod Streams
pub mod Life
mod Paging
pub mod Attach
mod Paged
mod Follow
mod Fanout
mod Follows
mod Reads
mod Repeats
mod Endings
mod Tests
