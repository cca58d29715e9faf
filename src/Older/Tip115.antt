-- ===== src/Older/Tip115.antt =====
-- proposals/description/old/tip_115.ts.
use tribe.Base.{[], ◌∷◌, false}
use tribe.Js.{get}
use tribe.Types.{address, number, text, boolean, TemplatedProposalDescription}
use tribe.Tips.Tip121c.{command}

unfoldable pub tip_115 : TemplatedProposalDescription
tip_115 = record {
  title = "TIP-115: Collateralization and Operations Updates";
  commands =
      command "collateralizationOracle" "0" "addDeposit(address)"
        (λ a. address (get a "rariTimelockFeiOldLens") ∷ [])
        "Add FEI lens to CR oracle for old timelocked FEI"
      ∷ command "collateralizationOracle" "0" "addDeposit(address)"
          (λ a. address (get a "tribalCouncilTimelockFeiLens") ∷ [])
          "Add FEI lens to CR oracle for tribal council timelock FEI"
      ∷ command "collateralizationOracle" "0" "removeDeposit(address)"
          (λ a. address (get a "namedStaticPCVDepositWrapper") ∷ [])
          "Remove NamedStaticPCVDepositWrapper from CR oracle"
      ∷ command "namedStaticPCVDepositWrapper" "0" "removeDeposit(uint256)" (λ a. number 1 ∷ [])
          "Remove NamedStaticPCVDepositWrapper FEI deposit"
      ∷ command "namedStaticPCVDepositWrapper" "0" "removeDeposit(uint256)" (λ a. number 0 ∷ [])
          "Remove NamedStaticPCVDepositWrapper INDEX deposit"
      ∷ command "rariInfraFeiTimelock" "0" "acceptBeneficiary()" (λ a. [])
          "Accept beneficiary of rari infra fei timelock"
      ∷ command "rariInfraTribeTimelock" "0" "acceptBeneficiary()" (λ a. [])
          "Accept beneficiary of rari infra tribe timelock"
      ∷ command "pcvGuardianNew" "0" "withdrawToSafeAddress(address,address,uint256,bool,bool)"
          (λ a.
            address (get a "daiFixedPricePSM")
            ∷ address (get a "ethToDaiLBPSwapper")
            ∷ text "1000000000000000000000000"
            ∷ boolean false
            ∷ boolean false
            ∷ [])
          "Withdraw 1M DAI to LBP Swapper"
      ∷ command "pcvGuardianNew" "0" "withdrawToSafeAddress(address,address,uint256,bool,bool)"
          (λ a.
            address (get a "ethPSM")
            ∷ address (get a "ethToDaiLBPSwapper")
            ∷ text "10000000000000000000000"
            ∷ boolean false
            ∷ boolean false
            ∷ [])
          "Withdraw 10k ETH to LBP Swapper"
      ∷ command "ethToDaiLBPSwapper" "0" "swap()" (λ a. []) "Trigger new ETH LBP swap"
      ∷ command "core" "0" "grantRole(bytes32,address)"
          (λ a.
            text "0x471cfe1a44bf1b786db7d7104d51e6728ed7b90a35394ad7cc424adf8ed16816"
            ∷ address (get a "tribalCouncilSafe")
            ∷ [])
          "Grant SWAP_ADMIN_ROLE to Tribal Council multisig"
      ∷ [];
  description =
      "Executes a few cleanup actions related to collateralization and operations:\n  1. Add a collateralization FEI lens to the FEI in the tribal council timelock and old rari timelocks\n  2. Accept beneficiary of the old rari timelocks to tribal council timelock.  \n  3. Remove deprecated namedStaticPCVDeposit from collateralization oracle. \n  4. Trigger new ETH LBP to convert 10k ETH to DAI.\n  5. Grant tribal council safe the SWAP_ADMIN_ROLE to initiate LBPs after governance funds them.\n  ";
}
