-- ===== src/Older/Tip117One.antt =====
-- proposals/description/old/tip_117.ts: its first commands.
use tribe.Base.{List, [], ◌∷◌, String, ℕ}
use tribe.Js.{get}
use tribe.Types.{address, text, bytes32, TemplatedProposalCommand}
use tribe.Tips.Tip121c.{command}

module _ (id : String → ℕ) where
  abbrev pub tip_117_first : List TemplatedProposalCommand
  tip_117_first =
      command "core" "0" "revokeRole(bytes32,address)"
        (λ a. bytes32 (id "MINTER_ROLE") ∷ address (get a "collateralizationOracleKeeper") ∷ [])
        "Revoke MINTER_ROLE from collateralizationOracleKeeper (no more cache updates)"
      ∷ command "core" "0" "revokeRole(bytes32,address)"
          (λ a. bytes32 (id "MINTER_ROLE") ∷ address (get a "dpiUniswapPCVDeposit") ∷ [])
          "Revoke MINTER_ROLE from dpiUniswapPCVDeposit (empty deposit)"
      ∷ command "core" "0" "revokeRole(bytes32,address)"
          (λ a. bytes32 (id "MINTER_ROLE") ∷ address (get a "uniswapPCVDeposit") ∷ [])
          "Revoke MINTER_ROLE from uniswapPCVDeposit (empty deposit)"
      ∷ command "core" "0" "revokeRole(bytes32,address)"
          (λ a. bytes32 (id "MINTER_ROLE") ∷ address (get a "balancerDepositFeiWeth") ∷ [])
          "Revoke MINTER_ROLE from balancerDepositFeiWeth (empty deposit)"
      ∷ command "core" "0" "revokeRole(bytes32,address)"
          (λ a. bytes32 (id "MINTER_ROLE") ∷ address (get a "optimisticMinter") ∷ [])
          "Revoke MINTER_ROLE from optimisticMinter (fip-96 deprecates OA timelock)"
      ∷ command "core" "0" "revokeRole(bytes32,address)"
          (λ a. bytes32 (id "PCV_CONTROLLER_ROLE") ∷ address (get a "raiPCVDripController") ∷ [])
          "Revoke PCV_CONTROLLER_ROLE from raiPCVDripController (RAI deposits are empty)"
      ∷ command "core" "0" "revokeRole(bytes32,address)"
          (λ a. bytes32 (id "PCV_CONTROLLER_ROLE") ∷ address (get a "lusdPCVDripController") ∷ [])
          "Revoke PCV_CONTROLLER_ROLE from lusdPCVDripController (BAMMDeposit is deprecated)"
      ∷ command "bammDeposit" "0" "pause()" (λ a. [])
          "Prevent surplus allocation from LUSD PSM to this deprecated deposit"
      ∷ command "ratioPCVControllerV2" "0" "withdrawRatio(address,address,uint256)"
          (λ a. address (get a "aaveEthPCVDeposit") ∷ address (get a "ethPSM") ∷ text "10000" ∷ [])
          "Withdraw all ETH in Aave to the ETH PSM"
      ∷ command "core" "0" "revokeRole(bytes32,address)"
          (λ a.
            bytes32 (id "PCV_CONTROLLER_ROLE") ∷ address (get a "aaveEthPCVDripController") ∷ [])
          "Revoke PCV_CONTROLLER_ROLE from aaveEthPCVDripController (Aave deposit is deprecated)"
      ∷ command "aaveEthPCVDeposit" "0" "pause()" (λ a. [])
          "Prevent surplus allocation from ETH PSM to this deprecated deposit"
      ∷ command "core" "0" "revokeRole(bytes32,address)"
          (λ a.
            bytes32 (id "ORACLE_ADMIN_ROLE")
            ∷ address (get a "collateralizationOracleGuardian")
            ∷ [])
          "Revoke ORACLE_ADMIN_ROLE from collateralizationOracleGuardian (no more guardian updates of cached CR Oracle)"
      ∷ command "core" "0" "revokeRole(bytes32,address)"
          (λ a. bytes32 (id "ORACLE_ADMIN_ROLE") ∷ address (get a "optimisticTimelock") ∷ [])
          "Revoke ORACLE_ADMIN_ROLE from optimisticTimelock (OA is deprecated)"
      ∷ command "core" "0" "revokeRole(bytes32,address)"
          (λ a. bytes32 (id "SWAP_ADMIN_ROLE") ∷ address (get a "optimisticTimelock") ∷ [])
          "Revoke SWAP_ADMIN_ROLE from optimisticTimelock (OA is deprecated)"
      ∷ command "core" "0" "revokeRole(bytes32,address)"
          (λ a. bytes32 (id "FUSE_ADMIN") ∷ address (get a "optimisticTimelock") ∷ [])
          "Revoke FUSE_ADMIN from optimisticTimelock (OA is deprecated)"
      ∷ command "core" "0" "revokeRole(bytes32,address)"
          (λ a. bytes32 (id "PCV_GUARDIAN_ADMIN_ROLE") ∷ address (get a "optimisticTimelock") ∷ [])
          "Revoke PCV_GUARDIAN_ADMIN_ROLE from optimisticTimelock (OA is deprecated)"
      ∷ []
