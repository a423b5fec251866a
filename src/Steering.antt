-- ===== src/Steering.antt =====
-- harness/state/steering.py: the durable queue of user steering, with leases and acknowledgements.
pub mod Message
pub mod Queue
pub mod Invariant
pub mod Lease
pub mod Enqueue
pub mod Finish
pub mod Life
mod Retry
mod Tests
