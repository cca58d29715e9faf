-- ===== src/Older/EthLbp.antt =====
-- proposals/description/old/eth_lbp.ts.
use tribe.Base.{[], ◌∷◌, false}
use tribe.Js.{get}
use tribe.Types.{address, addresses, text, boolean, TemplatedProposalDescription}
use tribe.Tips.Tip121c.{command}

unfoldable pub eth_lbp : TemplatedProposalDescription
eth_lbp = record {
  title = "FIP-111: Reinforce PCV via ETH LBP and tighter spread";
  commands =
      command "pcvGuardianNew" "0" "setSafeAddresses(address[])"
        (λ a. addresses (get a "ethToDaiLBPSwapper" ∷ []) ∷ [])
        "Set the ethToDai LBP swapper to be guardian Safe addresses"
      ∷ command "pcvGuardianNew" "0" "withdrawToSafeAddress(address,address,uint256,bool,bool)"
          (λ a.
            address (get a "aaveEthPCVDeposit")
            ∷ address (get a "ethToDaiLBPSwapper")
            ∷ text "20000000000000000000000"
            ∷ boolean false
            ∷ boolean false
            ∷ [])
          "Transfer WETH from Aave to the LBP swapper"
      ∷ command "pcvGuardianNew" "0" "withdrawToSafeAddress(address,address,uint256,bool,bool)"
          (λ a.
            address (get a "compoundDaiPCVDeposit")
            ∷ address (get a "ethToDaiLBPSwapper")
            ∷ text "3000000000000000000000000"
            ∷ boolean false
            ∷ boolean false
            ∷ [])
          "Withdraw 3M DAI from the CompoundPCVDeposit and transfer to the LBP pool"
      ∷ command "ethToDaiLBPSwapper" "0" "swap()" (λ a. [])
          "Start the auction and override the current no-op auction"
      ∷ command "collateralizationOracle" "0" "addDeposit(address)"
          (λ a. address (get a "ethToDaiLensDai") ∷ []) "Add DAI swapper lens to the CR oracle"
      ∷ command "collateralizationOracle" "0" "addDeposit(address)"
          (λ a. address (get a "ethToDaiLensEth") ∷ []) "Add ETH swapper lens to the CR oracle"
      ∷ command "ethPSM" "0" "setRedeemFee(uint256)" (λ a. text "60" ∷ []) "set PSM spread to 60"
      ∷ [];
  description =
      "\n  FIP-111: Reinforce PCV via ETH LBP and tighter spread.\n\n  This proposal uses a balancer liquidity bootstrapping pool to sell 20k ETH for DAI over 2 days. \n  It also tightens the spread on the ETH psm by allowing redemptions for a 60bps fee.\n  ";
}
