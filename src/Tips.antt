-- ===== src/Tips.antt =====
-- The two proposals of the redemption and what they do to the contracts.
pub mod Tip121c
pub mod Tip121b
pub mod Funding
pub mod RepaymentData
pub mod Deployment
mod DeploymentTests
pub mod CoreCalls
pub mod MinterRole
pub mod MinterBurnt
mod Tests
mod FundingTests
