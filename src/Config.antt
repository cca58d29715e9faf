-- ===== src/Config.antt =====
-- protocol-configuration: the named contracts of the mainnet and the roles they hold.
pub mod MainnetOne
pub mod MainnetTwo
pub mod MainnetThree
pub mod MainnetFour
pub mod Permissions
pub mod Proposals
pub mod Holders
pub mod Contracts
mod Tests
