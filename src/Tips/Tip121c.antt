-- ===== src/Tips/Tip121c.antt =====
-- proposals/description/tip_121c.ts, command by command. `id` is `ethers.utils.id`.
use tribe.Base.{ℕ, List, [], ◌∷◌, ◌++◌, String}
use tribe.Js.{get}
use tribe.Types.{
  NamedAddresses, Argument, address, addresses, text, bytes32, TemplatedProposalCommand,
  TemplatedProposalDescription,
}

abbrev pub command :
    String → String → String → (NamedAddresses → List Argument) → String → TemplatedProposalCommand
command target values method arguments description = record {
  target = target;
  values = values;
  method = method;
  arguments = arguments;
  description = description;
}

module _ (id : String → ℕ) where
  -- Part 1: the new DAI PSM takes over from the old one.
  abbrev pub psm_migration : List TemplatedProposalCommand
  psm_migration =
      command "core" "0" "revokeMinter(address)" (λ a. address (get a "daiFixedPricePSM") ∷ [])
        "Revoke MINTER role from the old DAI PSM"
      ∷ command "core" "0" "revokePCVController(address)"
          (λ a. address (get a "daiFixedPricePSMFeiSkimmer") ∷ [])
          "Revoke PCV_CONTROLLER role from the old DAI PSM skimmer"
      ∷ command "core" "0" "revokePCVController(address)"
          (λ a. address (get a "daiPCVDripController") ∷ [])
          "Revoke PCV_CONTROLLER role from the old DAI PSM drip controller"
      ∷ command "core" "0" "grantMinter(address)" (λ a. address (get a "simpleFeiDaiPSM") ∷ [])
          "Grant MINTER role to the new DAI PSM"
      ∷ command "ratioPCVControllerV2" "0" "withdrawRatio(address,address,uint256)"
          (λ a.
            address (get a "daiFixedPricePSM")
            ∷ address (get a "simpleFeiDaiPSM")
            ∷ text "10000"
            ∷ [])
          "Migrate DAI from old to new DAI PSM"
      ∷ command "ratioPCVControllerV2" "0" "withdrawRatioERC20(address,address,address,uint256)"
          (λ a.
            address (get a "daiFixedPricePSM")
            ∷ address (get a "fei")
            ∷ address (get a "simpleFeiDaiPSM")
            ∷ text "10000"
            ∷ [])
          "Migrate FEI from old to new DAI PSM"
      ∷ command "simpleFeiDaiPSM" "0" "burnFeiHeld()" (λ a. []) "Burn FEI held on the new DAI PSM"
      ∷ []

  -- Part 2: the MINTER_ROLE is revoked, and its admin role is given up.
  abbrev pub minter_removal : List TemplatedProposalCommand
  minter_removal =
      command "core" "0" "revokeMinter(address)" (λ a. address (get a "feiDAOTimelock") ∷ [])
        "Revoke MINTER_ROLE from the DAO Timelock."
      ∷ command "core" "0" "revokeMinter(address)" (λ a. address (get a "pcvEquityMinter") ∷ [])
          "Revoke MINTER role from the buybacks contract"
      ∷ command "core" "0" "createRole(bytes32,bytes32)"
          (λ a. bytes32 (id "BURN_MINTER_ROLE_TEMPORARY_ROLE") ∷ bytes32 (id "GOVERN_ROLE") ∷ [])
          "Create temporary role to burn the MINTER_ROLE"
      ∷ command "core" "0" "grantRole(bytes32,address)"
          (λ a.
            bytes32 (id "BURN_MINTER_ROLE_TEMPORARY_ROLE") ∷ address (get a "feiDAOTimelock") ∷ [])
          "Give temporary role to feiDAOTimelock"
      ∷ command "core" "0" "createRole(bytes32,bytes32)"
          (λ a.
            bytes32 (id "BURN_MINTER_ROLE_TEMPORARY_ROLE")
            ∷ bytes32 (id "BURN_MINTER_ROLE_TEMPORARY_ROLE")
            ∷ [])
          "Set BURN_MINTER_ROLE_TEMPORARY_ROLE as the admin of itself."
      ∷ command "core" "0" "createRole(bytes32,bytes32)"
          (λ a. bytes32 (id "MINTER_ROLE") ∷ bytes32 (id "BURN_MINTER_ROLE_TEMPORARY_ROLE") ∷ [])
          "Set BURN_MINTER_ROLE_TEMPORARY_ROLE as the admin of MINTER_ROLE."
      ∷ command "core" "0" "renounceRole(bytes32,address)"
          (λ a.
            bytes32 (id "BURN_MINTER_ROLE_TEMPORARY_ROLE") ∷ address (get a "feiDAOTimelock") ∷ [])
          "The BURN_MINTER_ROLE_TEMPORARY_ROLE can't be granted anymore, so nobody will ever be able to grant the MINTER_ROLE either."
      ∷ []

  -- The collateralization oracle and the safe addresses.
  abbrev pub oracle_and_guardian : List TemplatedProposalCommand
  oracle_and_guardian =
      command "collateralizationOracle" "0" "swapDeposit(address,address)"
        (λ a. address (get a "daiFixedPricePSM") ∷ address (get a "simpleFeiDaiPSM") ∷ [])
        "Swap old for new DAI PSM in CR Oracle"
      ∷ command "pcvGuardian" "0" "setSafeAddresses(address[])"
          (λ a. addresses (get a "simpleFeiDaiPSM" ∷ []) ∷ []) "Set new safe addresses"
      ∷ command "pcvGuardian" "0" "unsetSafeAddresses(address[])"
          (λ a.
            addresses (
              get a "daiFixedPricePSM"
              ∷ get a "balancerDepositBalWeth"
              ∷ get a "veBalDelegatorPCVDeposit"
              ∷ get a "balancerGaugeStaker"
              ∷ get a "ethToDaiLBPSwapper"
              ∷ get a "wethHoldingPCVDeposit"
              ∷ get a "lusdHoldingPCVDeposit"
              ∷ get a "daiHoldingPCVDeposit"
              ∷ get a "voltHoldingPCVDeposit"
              ∷ get a "gOHMHoldingPCVDeposit"
              ∷ [])
            ∷ [])
          "Unset all safe addresses (only DAO timelock and SimpleFeiDaiPSM that acts as a sink)"
      ∷ []

  unfoldable pub tip_121c : TemplatedProposalDescription
  tip_121c = record {
    title = "TIP-121: PCV Consolidation (phase 1.c)";
    commands = psm_migration ++ (minter_removal ++ oracle_and_guardian);
    description = "\n  TIP-121: PCV Consolidation (phase 1.c)\n\n  TODO\n  ";
  }
