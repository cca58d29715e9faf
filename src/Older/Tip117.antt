-- ===== src/Older/Tip117.antt =====
-- proposals/description/old/tip_117.ts: its last commands, and all of it.
use tribe.Base.{List, [], ◌∷◌, ◌++◌, String, ℕ}
use tribe.Js.{get}
use tribe.Types.{
  address, addresses, text, bytes32, TemplatedProposalCommand, TemplatedProposalDescription,
}
use tribe.Tips.Tip121c.{command}
use tribe.Older.Tip117One.{tip_117_first}

module _ (id : String → ℕ) where
  abbrev pub tip_117_second : List TemplatedProposalCommand
  tip_117_second =
      command "core" "0" "revokeRole(bytes32,address)"
        (λ a. bytes32 (id "METAGOVERNANCE_GAUGE_ADMIN") ∷ address (get a "optimisticTimelock") ∷ [])
        "Revoke METAGOVERNANCE_GAUGE_ADMIN from optimisticTimelock (OA is deprecated)"
      ∷ command "core" "0" "revokeRole(bytes32,address)"
          (λ a. bytes32 (id "PCV_MINOR_PARAM_ROLE") ∷ address (get a "optimisticTimelock") ∷ [])
          "Revoke PCV_MINOR_PARAM_ROLE from optimisticTimelock (OA is deprecated)"
      ∷ command "core" "0" "revokeRole(bytes32,address)"
          (λ a.
            bytes32 (id "TOKEMAK_DEPOSIT_ADMIN_ROLE") ∷ address (get a "optimisticTimelock") ∷ [])
          "Revoke TOKEMAK_DEPOSIT_ADMIN_ROLE from optimisticTimelock (OA is deprecated)"
      ∷ command "tribeReserveStabilizer" "0" "setCollateralizationOracle(address)"
          (λ a. address (get a "collateralizationOracle") ∷ [])
          "Set CR Oracle in Tribe Reserve Stabilizer (backstop) to the uncached CR Oracle"
      ∷ command "pcvEquityMinter" "0" "setCollateralizationOracle(address)"
          (λ a. address (get a "collateralizationOracle") ∷ [])
          "Set CR Oracle in PCV Equity Minter (buybacks) to the uncached CR Oracle"
      ∷ command "collateralizationOracle" "0" "setOracle(address,address)"
          (λ a. address (get a "volt") ∷ address (get a "voltOracle") ∷ [])
          "Replace VOLT oracle in CR oracle"
      ∷ command "ratioPCVControllerV2" "0" "withdrawRatio(address,address,uint256)"
          (λ a. address (get a "uniswapPCVDeposit") ∷ address (get a "ethPSM") ∷ text "10000" ∷ [])
          "Withdraw remaining ETH/FEI liquidity from Uniswap v2"
      ∷ command "ratioPCVControllerV2" "0" "withdrawRatioERC20(address,address,address,uint256)"
          (λ a.
            address (get a "ethTokemakPCVDeposit")
            ∷ address (get a "toke")
            ∷ address (get a "tribalCouncilSafe")
            ∷ text "10000"
            ∷ [])
          "Withdraw all TOKE from Tokemak ETH deposit to TC Multisig where it can be sold"
      ∷ command "d3poolCurvePCVDeposit" "0" "exitPool()" (λ a. []) "Exit d3pool position"
      ∷ command "ratioPCVControllerV2" "0" "withdrawRatioERC20(address,address,address,uint256)"
          (λ a.
            address (get a "d3poolCurvePCVDeposit")
            ∷ address (get a "fei")
            ∷ address (get a "daiFixedPricePSM")
            ∷ text "10000"
            ∷ [])
          "Withdraw all FEI on d3 deposit to DAI PSM where it can be burnt"
      ∷ command "ratioPCVControllerV2" "0" "withdrawRatioERC20(address,address,address,uint256)"
          (λ a.
            address (get a "d3poolCurvePCVDeposit")
            ∷ address (get a "frax")
            ∷ address (get a "tribalCouncilSafe")
            ∷ text "10000"
            ∷ [])
          "Withdraw all FRAX on d3 deposit to TC Multisig where it can be sold"
      ∷ command "ratioPCVControllerV2" "0" "withdrawRatioERC20(address,address,address,uint256)"
          (λ a.
            address (get a "d3poolCurvePCVDeposit")
            ∷ address (get a "alusd")
            ∷ address (get a "tribalCouncilSafe")
            ∷ text "10000"
            ∷ [])
          "Withdraw all alUSD on d3 deposit to TC Multisig where it can be sold"
      ∷ command "ratioPCVControllerV2" "0" "withdrawRatioERC20(address,address,address,uint256)"
          (λ a.
            address (get a "compoundEthPCVDeposit")
            ∷ address (get a "comp")
            ∷ address (get a "tribalCouncilSafe")
            ∷ text "10000"
            ∷ [])
          "Withdraw all COMP from Compound ETH deposit to TC Multisig where it can be sold"
      ∷ command "ratioPCVControllerV2" "0" "withdrawRatioERC20(address,address,address,uint256)"
          (λ a.
            address (get a "compoundDaiPCVDeposit")
            ∷ address (get a "comp")
            ∷ address (get a "tribalCouncilSafe")
            ∷ text "10000"
            ∷ [])
          "Withdraw all COMP from Compound DAI deposit to TC Multisig where it can be sold"
      ∷ command "ratioPCVControllerV2" "0" "withdrawRatioERC20(address,address,address,uint256)"
          (λ a.
            address (get a "aaveEthPCVDeposit")
            ∷ address (get a "stAAVE")
            ∷ address (get a "tribalCouncilSafe")
            ∷ text "10000"
            ∷ [])
          "Withdraw all stkAAVE from Aave ETH deposit to TC Multisig where it can be sold"
      ∷ command "ratioPCVControllerV2" "0" "withdrawRatioERC20(address,address,address,uint256)"
          (λ a.
            address (get a "d3poolConvexPCVDeposit")
            ∷ address (get a "crv")
            ∷ address (get a "tribalCouncilSafe")
            ∷ text "10000"
            ∷ [])
          "Withdraw all CRV from Convex deposit to TC Multisig where it can be sold"
      ∷ []

  abbrev pub tip_117_third : List TemplatedProposalCommand
  tip_117_third =
      command "ratioPCVControllerV2" "0" "withdrawRatioERC20(address,address,address,uint256)"
        (λ a.
          address (get a "d3poolConvexPCVDeposit")
          ∷ address (get a "cvx")
          ∷ address (get a "tribalCouncilSafe")
          ∷ text "10000"
          ∷ [])
        "Withdraw all CVX from Convex deposit to TC Multisig where it can be sold"
      ∷ command "ratioPCVControllerV2" "0" "withdrawRatioERC20(address,address,address,uint256)"
          (λ a.
            address (get a "bammDeposit")
            ∷ address (get a "lqty")
            ∷ address (get a "tribalCouncilTimelock")
            ∷ text "10000"
            ∷ [])
          "Withdraw all LQTY from B.AMM deposit to TC Timelock"
      ∷ command "ratioPCVControllerV2" "0" "withdrawRatioERC20(address,address,address,uint256)"
          (λ a.
            address (get a "raiPriceBoundPSM")
            ∷ address (get a "rai")
            ∷ address (get a "tribalCouncilSafe")
            ∷ text "10000"
            ∷ [])
          "Withdraw all RAI from PSM to TC Multisig where it can be sold"
      ∷ command "ratioPCVControllerV2" "0" "withdrawRatioERC20(address,address,address,uint256)"
          (λ a.
            address (get a "raiPriceBoundPSM")
            ∷ address (get a "fei")
            ∷ address (get a "daiFixedPricePSM")
            ∷ text "10000"
            ∷ [])
          "Withdraw all FEI from PSM to DAI PSM where it can be burnt"
      ∷ command "collateralizationOracle" "0" "removeDeposits(address[])"
          (λ a.
            addresses (
              get a "dpiToDaiLensDai"
              ∷ get a "dpiToDaiLensDpi"
              ∷ get a "bammDeposit"
              ∷ get a "rariPool7LusdPCVDeposit"
              ∷ get a "rariPool6FeiPCVDepositWrapper"
              ∷ get a "rariPool19FeiPCVDepositWrapper"
              ∷ get a "rariPool24FeiPCVDepositWrapper"
              ∷ get a "agEurDepositWrapper"
              ∷ get a "wethDepositWrapper"
              ∷ get a "d3poolConvexPCVDeposit"
              ∷ get a "d3poolCurvePCVDeposit"
              ∷ get a "uniswapPCVDeposit"
              ∷ get a "compoundEthPCVDepositWrapper"
              ∷ get a "raiPriceBoundPSM"
              ∷ get a "balancerDepositFeiWeth"
              ∷ get a "balancerLensBpt30Fei70Weth"
              ∷ get a "ethTokemakPCVDeposit"
              ∷ [])
            ∷ [])
          "Remove deprecated/empty deposits from CR oracle"
      ∷ command "pcvGuardian" "0" "unsetSafeAddresses(address[])"
          (λ a.
            addresses (
              get a "raiPriceBoundPSM"
              ∷ get a "aaveRaiPCVDeposit"
              ∷ get a "rariPool9RaiPCVDeposit"
              ∷ get a "balancerDepositFeiWeth"
              ∷ get a "d3poolConvexPCVDeposit"
              ∷ get a "d3poolCurvePCVDeposit"
              ∷ get a "compoundEthPCVDeposit"
              ∷ [])
            ∷ [])
          "Remove deprecated deposits from safe address list"
      ∷ command "core" "0" "revokeRole(bytes32,address)"
          (λ a.
            bytes32 (id "METAGOVERNANCE_VOTE_ADMIN") ∷ address (get a "opsOptimisticTimelock") ∷ [])
          "Revoke METAGOVERNANCE_VOTE_ADMIN role from the Ops Optimistic Timelock"
      ∷ command "core" "0" "revokeRole(bytes32,address)"
          (λ a.
            bytes32 (id "METAGOVERNANCE_TOKEN_STAKING")
            ∷ address (get a "opsOptimisticTimelock")
            ∷ [])
          "Revoke METAGOVERNANCE_TOKEN_STAKING role from the Ops Optimistic Timelock"
      ∷ command "core" "0" "revokeRole(bytes32,address)"
          (λ a. bytes32 (id "ORACLE_ADMIN_ROLE") ∷ address (get a "opsOptimisticTimelock") ∷ [])
          "Revoke ORACLE_ADMIN_ROLE role from the Ops Optimistic Timelock"
      ∷ []

  unfoldable pub tip_117 : TemplatedProposalDescription
  tip_117 = record {
    title = "TIP-117: Oracles, Roles, and OA Cleanup";
    commands = tip_117_first id ++ tip_117_second ++ tip_117_third;
    description =
        "TIP-117: Oracles, Roles, and OA Cleanup\n\n  This proposal performs various technical maintenance, cleanup and deprecation tasks. It also completes tasks from \n  TIP-110 (https://tribe.fei.money/t/tip-110-simplify-pcv/4323) and deprecates the optimistic approval and ops timelocks, which as of\n  FIP-82: Governance Enhancements (https://tribe.fei.money/t/fip-82-governance-enhancements/3945) are no longer required.\n\n  Specifically, it:\n1. Deprecates old collaterization oracle caching Features :\n    - collateralizationOracle is now read directly by pcvEquityMinter (buybacks) and tribeReserveStabilizer (backstop)\n    - collateralizationOracleWrapper and collateralizationOracleWrapperImpl are no longer used anywhere in the system\n    - collateralizationOracleGuardian (used to update the cache) is no longer used (revoked ORACLE_ADMIN_ROLE role)\n    - collateralizationOracleKeeper (used to incentivize updates of the cache) is no longer used (revoked MINTER_ROLE role)\n\n2. Removes empty or deprecated PCV deposits from the collaterization oracle:\n    - DPI->DAI LBP swapper lenses\n    - B.AMM LUSD Deposit (deprecated, would need to redeploy to use the new B.AMM)\n    - Fuse pool 7 (Tetranode) LUSD deposit (0$ left)\n    - Fuse pool 6, 19, and 24 FEI deposit (114$, 0$, and 6k$ left)\n    - DAO Timelock lenses for agEUR and WETH\n    - Curve/Convex d3 deposits (0$ left)\n    - Withdraw remaining ETH/FEI liquidity from Uniswap v2 (0$ left)\n    - Aave/Compound FEI/ETH deposits (0$ left)\n    - Balancer FEI/WETH deposit (0$ left)\n\n3. Unsets deprecated contracts from the safe addresses list, so funds can no longer be transferred to these deprecated\n   contracts by the PCV Guardian\n\n4. Implements components of TIP-110 Simplify PCV (https://tribe.fei.money/t/tip-110-simplify-pcv/4323):\n - Move LM rewards (COMP, stkAAVE, CRV, CVX) to the TC Multisig where they can be sold.\n - Move leftover RAI that is in PSM to the TC Multisig where it can be sold.\n - Move LQTY to TC Timelock where it can be moved to a proper PCVDeposit later.\n\n5. Deprecates the optimistic approval timelock by removing its various access roles. \n   This is cleanup from FIP-82: Governance Enhancements (https://tribe.fei.money/t/fip-82-governance-enhancements/3945),\n   the optimistic approval timelock is no longer required.\n\n   The following roles are removed:\n      - ORACLE_ADMIN ROLE\n      - SWAP_ADMIN_ROLE\n      - FUSE_ADMIN\n      - PCV_GUARDIAN_ADMIN_ROLE\n      - METAGOVERNANCE_GAUGE_ADMIN\n      - PCV_MINOR_PARAM_ROLE\n      - TOKEMAK_DEPOSIT_ADMIN_ROLE\n\n 6. Deprecates the ops optimistic timelock, which as of FIP-82: Governance Enhancements (https://tribe.fei.money/t/fip-82-governance-enhancements/3945), \n    is no longer required. The following roles are removed:\n      - METAGOVERNANCE_TOKEN_STAKING\n      - METAGOVERNANCE_VOTE_ADMIN\n      - METAGOVERNANCE_TOKEN_STAKING\n";
  }
