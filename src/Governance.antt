-- ===== src/Governance.antt =====
-- contracts/dao/timelock and the scripts that take a proposal through it.
pub mod Timelock
pub mod Delay
pub mod Proposal
pub mod Simulate
pub mod Duplicates
pub mod Debug
pub mod Construct
pub mod Pod
pub mod PodRuns
mod Tests
mod PodTests
