-- ===== src/Shutdown.antt =====
-- scripts/shutdown: the tooling of the redemption.
pub mod CTokens
pub mod CreateMerkleTrees
pub mod Roots
pub mod EndToEnd
pub mod DeployMerkleRedeemer
mod Tests
mod DeployTests
pub mod TopHolders
pub mod SetTokenBalance
pub mod Give
mod GiveTests
pub mod Merge
mod MergeTests
