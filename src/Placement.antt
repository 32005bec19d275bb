-- ===== src/Placement.antt =====
-- src/computeconnect/placement.py: candidate filtering, placement and estimation, in stages that
-- hand each other the records of Types.
pub mod Types
pub mod Order
pub mod Filter
pub mod Judge
pub mod Rank
pub mod Select
pub mod Candidates
pub mod Fit
pub mod Eligible
pub mod Eligibles
pub mod Choice
pub mod Guarantees
pub mod Preference
pub mod Deterministic
pub mod Accounting
mod Tests
