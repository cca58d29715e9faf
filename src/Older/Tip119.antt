-- ===== src/Older/Tip119.antt =====
-- proposals/description/old/tip_119.ts.
use tribe.Base.{[], ◌∷◌, ℕ, true, false}
use tribe.Js.{get}
use tribe.Types.{address, number, text, boolean, TemplatedProposalDescription}
use tribe.Tips.Tip121c.{command}
use tribe.Tips.Tip121b.{parse_ether}

abbrev volt_otc_amount : ℕ
volt_otc_amount = parse_ether 10000000

abbrev fei_burn_amount : ℕ
fei_burn_amount = parse_ether 10170000

unfoldable pub tip_119 : TemplatedProposalDescription
tip_119 = record {
  title = "TIP-119: Collaterisation Oracle updates, Swap USDC, Perform FEI <> VOLT OTC";
  commands =
      command "collateralizationOracle" "0" "setOracle(address,address)"
        (λ a. address (get a "gohm") ∷ address (get a "gOhmUSDOracle") ∷ [])
        "Set the gOHM USD oracle on the Collaterisation Oracle, to support the gOHM holding deposit"
      ∷ command "collateralizationOracle" "0" "addDeposit(address)"
          (λ a. address (get a "gOHMHoldingPCVDeposit") ∷ [])
          "Add the gOHM Holding PCV Deposit. Will contribute ~$1.5M to PCV equity"
      ∷ command "usdc" "0" "approve(address,uint256)"
          (λ a. address (get a "makerUSDCGemJoin") ∷ text "1024742540680" ∷ [])
          "Approve Maker USDC Gem Join adapter, to allow PSM to pull USDC and swap for DAI"
      ∷ command "makerUSDCPSM" "0" "sellGem(address,uint256)"
          (λ a. address (get a "compoundDaiPCVDeposit") ∷ text "1024742540680" ∷ [])
          "\n      Swap ~$1m USDC for DAI, via the feeless Maker PSM and send to the Compound PCV DAI deposit\n      "
      ∷ command "compoundDaiPCVDeposit" "0" "deposit()" (λ a. []) "Deposit DAI into Compound"
      ∷ command "pcvGuardian" "0" "withdrawToSafeAddress(address,address,uint256,bool,bool)"
          (λ a.
            address (get a "rariPool146EthPCVDeposit")
            ∷ address (get a "wethHoldingPCVDeposit")
            ∷ text "37610435021674550600"
            ∷ boolean false
            ∷ boolean true
            ∷ [])
          "Withdraw $50k ETH from Rari Fuse pool 146, send to WETH Holding Deposit"
      ∷ command "wethHoldingPCVDeposit" "0" "wrapETH()" (λ a. [])
          "Wrap the ETH to WETH on the WETH Holding Deposit"
      ∷ command "pcvGuardian" "0" "setSafeAddress(address)"
          (λ a. address (get a "tribalCouncilTimelock") ∷ [])
          "\n      Temporarily set the Tribal Council timelock as a safe address to move\n      the VOLT there for the swap\n      "
      ∷ command "pcvGuardian" "0" "withdrawToSafeAddress(address,address,uint256,bool,bool)"
          (λ a.
            address (get a "voltHoldingPCVDeposit")
            ∷ address (get a "tribalCouncilTimelock")
            ∷ number volt_otc_amount
            ∷ boolean false
            ∷ boolean false
            ∷ [])
          "Move all 10M VOLT to the TC timelock in preparation for an OTC swap"
      ∷ command "pcvGuardian" "0" "unsetSafeAddress(address)"
          (λ a. address (get a "tribalCouncilTimelock") ∷ [])
          "Unset the Tribal Council timelock as a safe address"
      ∷ command "volt" "0" "approve(address,uint256)"
          (λ a. address (get a "voltOTCEscrow") ∷ number volt_otc_amount ∷ [])
          "Approve the VOLT <> FEI OTC Escrow contract"
      ∷ command "voltOTCEscrow" "0" "swap()" (λ a. [])
          "Execute the VOLT <> FEI OTC swap, to receive 10.17M FEI and send out 10M VOLT"
      ∷ command "fei" "0" "burn(uint256)" (λ a. number fei_burn_amount ∷ [])
          "Burn all 10.17M FEI received from VOLT OTC"
      ∷ command "collateralizationOracle" "0" "removeDeposit(address)"
          (λ a. address (get a "voltHoldingPCVDeposit") ∷ [])
          "Remove empty VOLT holding deposit from CR"
      ∷ [];
  description =
      "\n  TIP-119: Collaterisation Oracle updates, Swap USDC, Perform FEI <> VOLT OTC\n\n  This proposal is a technical maintenance and cleanup proposal which performs\n  various updates to the Collaterisation Oracle so that it most accurately reflects\n  the current PCV holdings. \n  \n  It also performs the FEI <> VOLT OTC swap, to allow the Volt team to repay their loan.\n  Forum post for Volt repaying their loan: https://tribe.fei.money/t/tip-xxx-accept-repayment-of-volt-launch-liquidity-backstop/4429\n\n  Specifically, it:\n  - Registers the gOHM USD oracle on the Collaterisation Oracle\n  - Adds the gOHM Holding PCV deposit to the Collaterisation Oracle. \n    Will contribute ~$1.5M to PCV equity\n  - Swaps the USDC held on the Tribal Council timelock for DAI, via the Maker PSM. \n    Sends it to the Compound DAI PCV deposit. Will contribute ~$1M to PCV equity.\n  - Fund the VOLT OTC escrow contract and swap 10M VOLT for 10.17M FEI. Burn the received FEI.\n    (https://tribe.fei.money/t/tip-xxx-accept-repayment-of-volt-launch-liquidity-backstop/4429)\n  - Remove VOLT holding deposit from CR\n  - Withdraws ~$50k ETH from Rari Fuse pool 146.\n\n  Adding these assets into the accounting through this proposal, will have the net effect\n  of increasing PCV equity by ~$2.5M.\n  ";
}
