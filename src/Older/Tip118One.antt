-- ===== src/Older/Tip118One.antt =====
-- proposals/description/old/tip_118.ts: its first commands.
use tribe.Base.{List, [], ◌∷◌, String, ℕ}
use tribe.Js.{get}
use tribe.Types.{address, addresses, text, bytes32, TemplatedProposalCommand}
use tribe.Tips.Tip121c.{command}

module _ (id : String → ℕ) where
  abbrev pub tip_118_first : List TemplatedProposalCommand
  tip_118_first =
      command "ratioPCVControllerV2" "0" "withdrawRatioERC20(address,address,address,uint256)"
        (λ a.
          address (get a "ethPSM")
          ∷ address (get a "weth")
          ∷ address (get a "wethHoldingPCVDeposit")
          ∷ text "10000"
          ∷ [])
        "Migrate WETH from the ETH PSM to the new WETH Holding PCV deposit"
      ∷ command "ratioPCVControllerV2" "0" "withdrawRatioERC20(address,address,address,uint256)"
          (λ a.
            address (get a "ethPSM")
            ∷ address (get a "fei")
            ∷ address (get a "daiFixedPricePSM")
            ∷ text "10000"
            ∷ [])
          "Migrate FEI from ETH PSM to the DAI PSM"
      ∷ command "ratioPCVControllerV2" "0" "withdrawRatioERC20(address,address,address,uint256)"
          (λ a.
            address (get a "lusdPSM")
            ∷ address (get a "lusd")
            ∷ address (get a "lusdHoldingPCVDeposit")
            ∷ text "10000"
            ∷ [])
          "Migrate LUSD from the LUSD PSM to the LUSD holding PCV deposit"
      ∷ command "ratioPCVControllerV2" "0" "withdrawRatioERC20(address,address,address,uint256)"
          (λ a.
            address (get a "lusdPSM")
            ∷ address (get a "fei")
            ∷ address (get a "daiFixedPricePSM")
            ∷ text "10000"
            ∷ [])
          "Migrate FEI from the LUSD PSM to the DAI PSM"
      ∷ command "core" "0" "revokeRole(bytes32,address)"
          (λ a. bytes32 (id "MINTER_ROLE") ∷ address (get a "ethPSM") ∷ [])
          "Revoke MINTER_ROLE from ETH PSM"
      ∷ command "core" "0" "revokeRole(bytes32,address)"
          (λ a. bytes32 (id "MINTER_ROLE") ∷ address (get a "lusdPSM") ∷ [])
          "Revoke MINTER_ROLE from LUSD PSM"
      ∷ command "raiPriceBoundPSM" "0" "pauseRedeem()" (λ a. [])
          "Pause redemptions on the Rai Price bound PSM"
      ∷ command "aaveEthPCVDripController" "0" "pause()" (λ a. [])
          "Pause the ETH PCV drip controller"
      ∷ command "raiPCVDripController" "0" "pause()" (λ a. []) "Pause the RAI PCV drip controller"
      ∷ command "lusdPCVDripController" "0" "pause()" (λ a. []) "Pause the LUSD PCV drip controller"
      ∷ command "lusdPSMFeiSkimmer" "0" "pause()" (λ a. []) "Pause the LUSD PSM Fei skimmer"
      ∷ command "core" "0" "revokeRole(bytes32,address)"
          (λ a. bytes32 (id "PCV_CONTROLLER_ROLE") ∷ address (get a "lusdPSMFeiSkimmer") ∷ [])
          "Revoke PCV_CONTROLLER_ROLE from lusdPSMFeiSkimmer"
      ∷ command "ethPSMFeiSkimmer" "0" "pause()" (λ a. []) "Pause the ETH PSM Fei skimmer"
      ∷ command "core" "0" "revokeRole(bytes32,address)"
          (λ a. bytes32 (id "PCV_CONTROLLER_ROLE") ∷ address (get a "ethPSMFeiSkimmer") ∷ [])
          "Revoke PCV_CONTROLLER_ROLE from ethPSMFeiSkimmer"
      ∷ command "core" "0" "grantRole(bytes32,address)"
          (λ a.
            bytes32 (id "PCV_CONTROLLER_ROLE") ∷ address (get a "daiFixedPricePSMFeiSkimmer") ∷ [])
          "Grant PCV_CONTROLLER_ROLE to daiFixedPricePSMFeiSkimmer"
      ∷ command "daiFixedPricePSMFeiSkimmer" "0" "skim()" (λ a. [])
          "Burn excess Fei on the DAI PSM. Will burn ~135M FEI"
      ∷ []

  abbrev pub tip_118_second : List TemplatedProposalCommand
  tip_118_second =
      command "collateralizationOracle" "0" "addDeposits(address[])"
        (λ a.
          addresses (
            get a "wethHoldingPCVDeposit"
            ∷ get a "lusdHoldingPCVDeposit"
            ∷ get a "daiHoldingPCVDeposit"
            ∷ get a "voltHoldingPCVDeposit"
            ∷ [])
          ∷ [])
        "\n      Add the holding ERC20 deposits to the Collaterization Oracle.\n      gOHM deposit not added as does not yet have an oracle."
      ∷ command "pcvGuardian" "0" "setSafeAddresses(address[])"
          (λ a.
            addresses (
              get a "wethHoldingPCVDeposit"
              ∷ get a "lusdHoldingPCVDeposit"
              ∷ get a "daiHoldingPCVDeposit"
              ∷ get a "voltHoldingPCVDeposit"
              ∷ get a "gOHMHoldingPCVDeposit"
              ∷ [])
            ∷ [])
          "Set all new ERC20 holding deposits as safe addresses on the PCV Guardian"
      ∷ command "volt" "0" "transfer(address,uint256)"
          (λ a. address (get a "voltHoldingPCVDeposit") ∷ text "10000000000000000000000000" ∷ [])
          "Move 10M VOLT from the DAO timelock to the VOLT holding PCV deposit"
      ∷ command "gOHM" "0" "transfer(address,uint256)"
          (λ a. address (get a "gOHMHoldingPCVDeposit") ∷ text "577180000000000000000" ∷ [])
          "Send 577 gOHM from the DAO timelock to the gOHM holding PCV deposit"
      ∷ command "erc20Dripper" "0" "withdrawERC20(address,address,uint256)"
          (λ a.
            address (get a "tribe")
            ∷ address (get a "core")
            ∷ text "2508838570600494412126519"
            ∷ [])
          "Withdraw 2.5M TRIBE from the ERC20 Dripper to the Core Treasury"
      ∷ command "votiumBriber3Crvpool" "0" "withdrawERC20(address,address,uint256)"
          (λ a.
            address (get a "tribe")
            ∷ address (get a "core")
            ∷ text "1725076846586787179639648"
            ∷ [])
          "\n      Withdraw all TRIBE from 3CRV Votium briber contract to the Core Treasury. \n      \n      Withdraw is made up of 200k TRIBE pre-existing on this contract and then an additional 1.5M TRIBE \n      that was harvested from the stakingTokenWrapperBribe3Crvpool.\n      "
      ∷ command "votiumBriberD3pool" "0" "withdrawERC20(address,address,uint256)"
          (λ a.
            address (get a "tribe") ∷ address (get a "core") ∷ text "232096077769383622085234" ∷ [])
          "\n      Withdraw all TRIBE from D3 Votium briber contract to the Core Treasury. \n      \n      Withdraw is made up of 230k TRIBE that was harvested from the stakingTokenWrapperBribeD3pool.\n      "
      ∷ command "rewardsDistributorAdmin" "0" "_grantComp(address,uint256)"
          (λ a. address (get a "core") ∷ text "150000000000000000000000" ∷ [])
          "Withdraw excess 150k TRIBE from Rari delegator contract. There is 164k excess, leaving behind a buffer of 14k"
      ∷ command "tribalChief" "0" "governorWithdrawTribe(uint256)"
          (λ a. text "26800000000000000000000000" ∷ [])
          "\n      Withdraw remaining TRIBE from the Tribal Chief to the Core Treasury, leaving behind enough to fund outstanding\n      rewards.\n      \n      Withdrawal amount = \n      (Tribal Chief balance before harvest \n            - (pending rewards, Uniswap-v2 FEI/TRIBE LP + Curve 3crv-FEI metapool LP + G-UNI DAI/FEI 0.05% fee tier)\n      \n      Withdrawal amount = 27.4M - 0.60M = 26.8M  \n      (There is ~564k in pending rewards, leaving behind an additional ~35k TRIBE as buffer)\n      "
      ∷ command "core" "0" "revokeRole(bytes32,address)"
          (λ a. bytes32 (id "TRIBAL_CHIEF_ADMIN_ROLE") ∷ address (get a "optimisticTimelock") ∷ [])
          " Revoke TRIBAL_CHIEF_ADMIN_ROLE from OptimisticTimelock"
      ∷ command "core" "0" "revokeRole(bytes32,address)"
          (λ a.
            bytes32 (id "TRIBAL_CHIEF_ADMIN_ROLE") ∷ address (get a "tribalCouncilTimelock") ∷ [])
          " Revoke TRIBAL_CHIEF_ADMIN_ROLE from Tribal Council timelock"
      ∷ command "angleDelegatorPCVDeposit" "0" "claimGaugeRewards(address)"
          (λ a. address (get a "angleGaugeUniswapV2FeiAgEur") ∷ [])
          "Claim all unclaimed ANGLE rewards"
      ∷ command "ratioPCVControllerV2" "0" "withdrawRatioERC20(address,address,address,uint256)"
          (λ a.
            address (get a "angleDelegatorPCVDeposit")
            ∷ address (get a "angle")
            ∷ address (get a "tribalCouncilSafe")
            ∷ text "10000"
            ∷ [])
          "Migrate all ANGLE to TC Multisig where it can be sold"
      ∷ []
