-- ===== src/Older/EndTribeIncentives.antt =====
-- proposals/description/old/end_tribe_incentives.ts: its last commands, and all of it.
use tribe.Base.{List, [], ◌∷◌, ◌++◌, false}
use tribe.Js.{get}
use tribe.Types.{address, text, boolean, TemplatedProposalCommand, TemplatedProposalDescription}
use tribe.Tips.Tip121c.{command}
use tribe.Older.EndTribeIncentivesOne.{end_tribe_incentives_first}

abbrev pub end_tribe_incentives_second : List TemplatedProposalCommand
end_tribe_incentives_second =
    command "tribalChief" "0" "set(uint256,uint120,address,bool)"
      (λ a.
        text "15"
        ∷ text "0"
        ∷ text "0x0000000000000000000000000000000000000000"
        ∷ boolean false
        ∷ [])
      "Set Pool 15 rewards to 0 and do not overwrite or change the rewarder"
    ∷ command "tribalChief" "0" "set(uint256,uint120,address,bool)"
        (λ a.
          text "16"
          ∷ text "0"
          ∷ text "0x0000000000000000000000000000000000000000"
          ∷ boolean false
          ∷ [])
        "Set Pool 16 rewards to 0 and do not overwrite or change the rewarder"
    ∷ command "tribalChief" "0" "set(uint256,uint120,address,bool)"
        (λ a.
          text "17"
          ∷ text "0"
          ∷ text "0x0000000000000000000000000000000000000000"
          ∷ boolean false
          ∷ [])
        "Set Pool 17 rewards to 0 and do not overwrite or change the rewarder"
    ∷ command "tribalChief" "0" "updateBlockReward(uint256)" (λ a. text "100000" ∷ [])
        "Set Tribal Chief block reward effectively to zero. Setting to 100000"
    ∷ command "autoRewardsDistributor" "0" "setAutoRewardsDistribution()" (λ a. [])
        "Sync the reward speed of the AutoRewardsDistributor"
    ∷ command "d3AutoRewardsDistributor" "0" "setAutoRewardsDistribution()" (λ a. [])
        "Sync the reward speed of the d3AutoRewardsDistributor"
    ∷ command "fei3CrvAutoRewardsDistributor" "0" "setAutoRewardsDistribution()" (λ a. [])
        "Sync the reward speed of the fei3CrvAutoRewardsDistributor"
    ∷ command "feiDaiAutoRewardsDistributor" "0" "setAutoRewardsDistribution()" (λ a. [])
        "Sync the reward speed of the feiDaiAutoRewardsDistributor"
    ∷ command "feiUsdcAutoRewardsDistributor" "0" "setAutoRewardsDistribution()" (λ a. [])
        "Sync the reward speed of the feiUsdcAutoRewardsDistributor"
    ∷ command "core" "0" "revokeRole(bytes32,address)"
        (λ a.
          text "0x7f85477db6c0857f19179a2b3846a7ddbc64caeeb3a02ef34771b82f5ab926e4"
          ∷ address (get a "tribalChiefSyncV2")
          ∷ [])
        "Revoke FUSE_ADMIN from tribalChiefSyncV2"
    ∷ command "core" "0" "revokeRole(bytes32,address)"
        (λ a.
          text "0x23970cab3799b6876df4319661e6c03cc45bd59628799d92e988dd8cbdc90e31"
          ∷ address (get a "tribalChiefSyncV2")
          ∷ [])
        "Revoke TRIBAL_CHIEF_ADMIN_ROLE from tribalChiefSyncV2"
    ∷ command "rewardsDistributorAdmin" "0" "becomeAdmin()" (λ a. [])
        "Grant the TC timelock the DEFAULT_ADMIN_ROLE, to it can dismantle the RewardDistributorAdmin permissions"
    ∷ command "rewardsDistributorAdmin" "0" "revokeRole(bytes32,address)"
        (λ a.
          text "0x19cca239eaee0f28c6ba4c8c860332b8a23b35008b89b0507b96138ca5691cbb"
          ∷ address (get a "feiDaiAutoRewardsDistributor")
          ∷ [])
        "Revoke AUTO_REWARDS_DISTRIBUTOR_ROLE from feiDaiAutoRewardsDistributor"
    ∷ command "rewardsDistributorAdmin" "0" "revokeRole(bytes32,address)"
        (λ a.
          text "0x19cca239eaee0f28c6ba4c8c860332b8a23b35008b89b0507b96138ca5691cbb"
          ∷ address (get a "feiUsdcAutoRewardsDistributor")
          ∷ [])
        "Revoke AUTO_REWARDS_DISTRIBUTOR_ROLE from feiUsdcAutoRewardsDistributor"
    ∷ command "rewardsDistributorAdmin" "0" "revokeRole(bytes32,address)"
        (λ a.
          text "0x19cca239eaee0f28c6ba4c8c860332b8a23b35008b89b0507b96138ca5691cbb"
          ∷ address (get a "autoRewardsDistributor")
          ∷ [])
        "Revoke AUTO_REWARDS_DISTRIBUTOR_ROLE from autoRewardsDistributor"
    ∷ command "rewardsDistributorAdmin" "0" "revokeRole(bytes32,address)"
        (λ a.
          text "0x19cca239eaee0f28c6ba4c8c860332b8a23b35008b89b0507b96138ca5691cbb"
          ∷ address (get a "d3AutoRewardsDistributor")
          ∷ [])
        "Revoke AUTO_REWARDS_DISTRIBUTOR_ROLE from d3AutoRewardsDistributor"
    ∷ []

abbrev pub end_tribe_incentives_third : List TemplatedProposalCommand
end_tribe_incentives_third =
    command "rewardsDistributorAdmin" "0" "revokeRole(bytes32,address)"
      (λ a.
        text "0x19cca239eaee0f28c6ba4c8c860332b8a23b35008b89b0507b96138ca5691cbb"
        ∷ address (get a "fei3CrvAutoRewardsDistributor")
        ∷ [])
      "Revoke AUTO_REWARDS_DISTRIBUTOR_ROLE from fei3CrvAutoRewardsDistributor"
    ∷ command "core" "0" "revokeRole(bytes32,address)"
        (λ a.
          text "0x2d46c62aa6fbc9b550f22e00476aebb90f4ea69cd492a68db4d444217763330d"
          ∷ address (get a "opsOptimisticTimelock")
          ∷ [])
        "Revoke VOTIUM_ROLE from opsOptimisticTimelock as no longer required"
    ∷ command "collateralizationOracle" "0" "removeDeposit(address)"
        (λ a. address (get a "creamDepositWrapper") ∷ [])
        "Remove empty CREAM deposit from the CR oracle"
    ∷ []

unfoldable pub end_tribe_incentives : TemplatedProposalDescription
end_tribe_incentives = record {
  title = "TIP-109: Discontinue Tribe Incentives";
  commands =
      end_tribe_incentives_first ++ end_tribe_incentives_second ++ end_tribe_incentives_third;
  description =
      "\n  TIP-109: Discontinue Tribe Incentives\n\n  This proposal will disable all Tribe incentives. Specifically it:\n  - Sets the allocation points of all pools effectively to 0\n  - Updates the reward variables of incentivised pools\n  - Sets the amount of Tribe issued per block by the Tribal Chief to effectively zero\n  - Dismantle internal ACL/permission mapping of the rewardsDistributorAdmin\n  - Sync all AutoRewardDistributors\n  - Revoke TribeRoles from incentives system\n\n  It also removes CREAM from the Collaterisation Oracle\n  ";
}
