-- ===== src/Runs.antt =====
-- src/computeconnect/runs.py: runs, their journal and their registry.
pub mod Run
pub mod Journal
pub mod Registry
pub mod Trim
pub mod Recovery
pub mod Invariant
pub mod Capacity
pub mod Restart
pub mod Lifecycle
mod Tests
