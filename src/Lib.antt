-- ===== src/Lib.antt =====
-- The redemption of Fuse depositors and the wind-down of the protocol's minting, with the tooling
-- that prepares both.
--
-- The program. Holders of 27 Fuse tokens redeem them for FEI. scripts/shutdown/createMerkleTrees.ts
-- turns a snapshot of balances into one Merkle root for each token;
-- scripts/shutdown/deployMerkleRedeemer.ts hands roots and rates to the constructor of
-- contracts/shutdown/fuse/RariMerkleRedeemer.sol, where a holder signs a message, claims with a
-- proof and redeems within the claim; scripts/shutdown/setTokenBalance.ts is to give tokens to
-- a tester on a fork; as the file stands it throws before it reaches the fork. proposals/description/tip_121b.ts mints the FEI, part of it to
-- contracts/shutdown/fuse/MerkleRedeemerDripper.sol, which passes it on in portions.
-- proposals/description/tip_121c.ts moves the peg to the PSM contracts/peg/SimpleFeiDaiPSM.sol and
-- gives up MINTER_ROLE, by calls to contracts/core/Permissions.sol. Holders of TRIBE redeem it for
-- a share of the reserves in contracts/shutdown/redeem/TribeRedeemer.sol. A proposal is queued and
-- executed by contracts/dao/timelock/Timelock.sol, and scripts/utils tests it on a fork first. A pod
-- has a timelock of its own and registers its proposals in
-- contracts/pods/GovernanceMetadataRegistry.sol. protocol-configuration names every contract and the
-- holders of every role, which test/integration/setup reads.
--
-- The files.
-- Base: shared names, lists (length, get_elem?, Distinct), results (Result, require, Ensures) and
--   256-bit arithmetic that reverts on overflow (checked_add and the like).
-- Js: objects with string keys in the order of insertion, spread, argv, toLowerCase.
-- Types: types/types.ts.
-- Evm: byte strings, abi.encodePacked, and the interface Erc20 of the tokens; Evm/Ledger fills it.
-- Redeemer: the storage of MultiMerkleRedeemer.sol and the internal functions of
--   RariMerkleRedeemer.sol; Redeemer/Calls its external functions (signAndClaim is sign_and_claim,
--   and so on); Redeemer/Trace a transaction and a history of transactions; Redeemer/Storage the
--   invariants of a history; Redeemer/Claims, Payment and Deployment the results.
-- Dripper: contracts/shutdown/fuse/MerkleRedeemerDripper.sol over ERC20Dripper.sol and Timed.sol;
--   Dripper/Pace its histories and results, and Dripper/Keeps what they need of withdrawals.
-- Core: Permissions.sol over the interface AccessControl; Core/Trace its calls, Core/Roles an
--   implementation of the interface, Core/Minting what burning a role's admin keeps.
-- Governance: Timelock is contracts/dao/timelock/Timelock.sol, and Proposal the pipeline that tests
--   a proposal on it: constructProposal, _simulate and simulateDEBUGProposal of scripts/utils. Delay
--   has the histories of a timelock; Simulate, Duplicates and Debug the results on the pipeline.
--   Construct says what a proposal that is built needs. Pod is simulatePodProposal with
--   contracts/pods/GovernanceMetadataRegistry.sol, and PodRuns what it does.
-- TribeRedeemer: contracts/shutdown/redeem/TribeRedeemer.sol; Share is what one redemption leaves,
--   Waiting its histories, Whole when it goes through, and Paid what it moves.
-- Peg: contracts/peg/SimpleFeiDaiPSM.sol over contracts/fei/Fei.sol, which is Peg/Fei; Incentives and
--   Steps say what their calls do, Covered has the histories, Backing the results on them, and
--   RoundTrip minting and redeeming.
-- Shutdown: CTokens, CreateMerkleTrees, DeployMerkleRedeemer and SetTokenBalance are the files of
--   scripts/shutdown with those names; TopHolders is the table of the last, and Give its results.
--   Merge, Roots and EndToEnd hold the results on snapshots and on the published roots.
-- Tips: Tip121b and Tip121c are the proposals of those names, and RepaymentData the tables that the
--   first deploys with. Funding and Deployment hold the results on the first; for the second,
--   CoreCalls runs its commands, and MinterRole and MinterBurnt follow the roles through it.
-- Config: MainnetOne to MainnetFour, Permissions and Proposals are the tables of
--   protocol-configuration, and Holders the addresses that test/integration/setup finds for each role.
--   Contracts is getAllContracts, the addresses of the contracts with an artifact.
-- Older: the proposals of proposals/description/old that are in the shape constructProposal takes,
--   one module for each, in two where it is long; Targets looks their targets up there.
-- FuseDebt: scripts/utils/getFuseBadDebt.ts; Holds is what its object has, and Totals the result.
--
-- How code is read. A contract is a record of its storage, and a function returns the new state or
-- the text of its revert. An external contract or a package is a parameter: Erc20 for the tokens,
-- Supply for OpenZeppelin's minting and burning, Incentivize for the incentive contracts of FEI,
-- AccessControl for OpenZeppelin's roles, Chain for the contracts around the timelock, Controller
-- for OpenZeppelin's TimelockController, Plugin and Abi for the proposals plugin and ethers'
-- encoding, MerkleLibrary for merkletreejs, keccak256, ECDSA.recover, the file system, and how
-- ethers reads an address or an amount. Addresses are numbers on the chain and texts in the
-- scripts. Every loop is over a list, so no fuel is needed. A script's `throw` is an error, and
-- what only prints is left out.
--
-- Not modelled: events, the gas of a call, the network and the JSON parser, the generated contract
-- typings, the steps that go with the older proposals, and the contracts around the redemption that
-- no part above needs: the deposits, the oracles, the older peg modules, staking and the keepers.
pub mod Base
pub mod Js
pub mod Types
pub mod Evm
pub mod Redeemer
pub mod Dripper
pub mod Core
pub mod Governance
pub mod TribeRedeemer
pub mod Peg
pub mod Shutdown
pub mod Tips
pub mod Config
pub mod Older
pub mod FuseDebt
