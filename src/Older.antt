-- ===== src/Older.antt =====
-- proposals/description/old: the proposals in the shape that constructProposal takes, and whether it
-- can build them.
pub mod Clawback
pub mod EndTribeIncentivesOne
pub mod EndTribeIncentives
pub mod EthLbp
pub mod Fip104b
pub mod Phase1
pub mod PodExecV2
pub mod TcConsolidate
pub mod Tip111
pub mod Tip112
pub mod Tip115
pub mod Tip117One
pub mod Tip117
pub mod Tip118One
pub mod Tip118
pub mod Tip119
pub mod Tip121a
pub mod TokemakWithdraw
pub mod Targets
mod Tests
