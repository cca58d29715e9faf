-- ===== src/Older/Tip121a.antt =====
-- proposals/description/old/tip_121a.ts.
use tribe.Base.{List, [], ◌∷◌, ◌++◌}
use tribe.Js.{get}
use tribe.Types.{
  address, addresses, number, text, withdraw_info, TemplatedProposalCommand,
  TemplatedProposalDescription,
}
use tribe.Tips.Tip121c.{command}
use tribe.Tips.Tip121b.{parse_ether}

abbrev pub tip_121a_first : List TemplatedProposalCommand
tip_121a_first =
    command "ethToDaiLBPSwapper" "0" "setReceivingAddress(address)"
      (λ a. address (get a "daiHoldingPCVDeposit") ∷ []) "Set the target of the WETH>DAI auction"
    ∷ command "compoundDaiPCVDeposit" "0" "withdraw(address,uint256)"
        (λ a. address (get a "ethToDaiLBPSwapper") ∷ number (parse_ether 3000000) ∷ [])
        "Move 3M DAI to the WETH>DAI swapper"
    ∷ command "ratioPCVControllerV2" "0" "withdrawRatio(address,address,uint256)"
        (λ a.
          address (get a "wethHoldingPCVDeposit")
          ∷ address (get a "ethToDaiLBPSwapper")
          ∷ text "10000"
          ∷ [])
        "Move all WETH to the WETH>DAI swapper"
    ∷ command "ratioPCVControllerV2" "0" "withdrawWrapETH(address,address,uint256)"
        (λ a.
          address (get a "rariPool146EthPCVDeposit")
          ∷ address (get a "ethToDaiLBPSwapper")
          ∷ text "71347946884944201518"
          ∷ [])
        "Move all ETH in Fuse pool 146 to the WETH>DAI swapper"
    ∷ command "ethToDaiLBPSwapper" "0" "swap()" (λ a. []) "Start WETH>DAI swap (over 2 days)"
    ∷ command "compoundDaiPCVDeposit" "0" "withdraw(address,uint256)"
        (λ a. address (get a "lusdToDaiSwapper") ∷ number (parse_ether 2000000) ∷ [])
        "Move 2M DAI to the LUSD>DAI swapper"
    ∷ command "ratioPCVControllerV2" "0" "withdrawRatio(address,address,uint256)"
        (λ a.
          address (get a "lusdHoldingPCVDeposit")
          ∷ address (get a "lusdToDaiSwapper")
          ∷ text "10000"
          ∷ [])
        "Move all LUSD to the LUSD>DAI swapper"
    ∷ command "lusdToDaiSwapper" "0" "setSwapFrequency(uint256)" (λ a. text "172800" ∷ [])
        "set swap frequency to 2 days"
    ∷ command "lusdToDaiSwapper" "0" "forceSwap()" (λ a. []) "Start LUSD>DAI swap (over 2 days)"
    ∷ command "daiFixedPricePSM" "0" "setSurplusTarget(address)"
        (λ a. address (get a "daiHoldingPCVDeposit") ∷ [])
        "Update DAI PSM to allocate surplus to daiHoldingPCVDeposit"
    ∷ command "daiPCVDripController" "0" "setSource(address)"
        (λ a. address (get a "daiHoldingPCVDeposit") ∷ [])
        "Update DAI Drip controller to pull from daiHoldingPCVDeposit"
    ∷ command "ratioPCVControllerV2" "0" "withdrawRatio(address,address,uint256)"
        (λ a.
          address (get a "compoundDaiPCVDeposit")
          ∷ address (get a "daiHoldingPCVDeposit")
          ∷ text "10000"
          ∷ [])
        "Move all DAI out of Compound, to the daiHoldingPCVDeposit"
    ∷ command "noFeeFeiTribeLBPSwapper" "0" "exitPool(address)"
        (λ a. address (get a "daiFixedPricePSM") ∷ [])
        "Move all FEI/TRIBE from the buyback pool to the DAI PSM"
    ∷ command "ratioPCVControllerV2" "0" "withdrawRatioERC20(address,address,address,uint256)"
        (λ a.
          address (get a "daiFixedPricePSM")
          ∷ address (get a "tribe")
          ∷ address (get a "core")
          ∷ text "10000"
          ∷ [])
        "Move all TRIBE from DAI PSM to the DAO Treasury"
    ∷ command "gOHMHoldingPCVDeposit" "0" "withdraw(address,uint256)"
        (λ a. address (get a "ohmEscrowUnwind") ∷ text "577180000000000000000" ∷ [])
        "Fund OTC contract for unwind of Olympus treasury swap"
    ∷ []

abbrev pub tip_121a_second : List TemplatedProposalCommand
tip_121a_second =
    command "pcvSentinel" "0" "knight(address)" (λ a. address (get a "maxFeiWithdrawalGuard") ∷ [])
      "Knight new Guard to withdraw FEI from various markets"
    ∷ command "fuseWithdrawalGuard" "0" "setWithdrawInfo(address,(address,address,uint96))"
        (λ a.
          address (get a "rariPool8FeiPCVDeposit")
          ∷ withdraw_info (get a "daiFixedPricePSM") (get a "fei") "150000000000000000000000"
          ∷ [])
        "Update Fuse Withdrawal Guard"
    ∷ command "fuseWithdrawalGuard" "0" "setWithdrawInfo(address,(address,address,uint96))"
        (λ a.
          address (get a "rariPool8LusdPCVDeposit")
          ∷ withdraw_info (get a "lusdHoldingPCVDeposit") (get a "lusd") "3000000000000000000000"
          ∷ [])
        "Update Fuse Withdrawal Guard"
    ∷ command "fuseWithdrawalGuard" "0" "setWithdrawInfo(address,(address,address,uint96))"
        (λ a.
          address (get a "rariPool79FeiPCVDeposit")
          ∷ withdraw_info (get a "daiFixedPricePSM") (get a "fei") "0"
          ∷ [])
        "Update Fuse Withdrawal Guard"
    ∷ command "collateralizationOracle" "0" "addDeposits(address[])"
        (λ a. addresses (get a "lusdToDaiLensDai" ∷ get a "lusdToDaiLensLusd" ∷ []) ∷ [])
        "Update CR Oracle"
    ∷ command "collateralizationOracle" "0" "removeDeposits(address[])"
        (λ a.
          addresses (
            get a "compoundDaiPCVDepositWrapper"
            ∷ get a "lusdHoldingPCVDeposit"
            ∷ get a "feiBuybackLensNoFee"
            ∷ get a "gOHMHoldingPCVDeposit"
            ∷ [])
          ∷ [])
        "Update CR Oracle"
    ∷ []

unfoldable pub tip_121a : TemplatedProposalDescription
tip_121a = record {
  title = "TIP-121a: Consolidation";
  commands = tip_121a_first ++ tip_121a_second;
  description =
      "\n  TIP-121a: Consolidation\n\n  - Sell 22k WETH to DAI through a 2-day LBP auction on Balancer\n  - Sell 18.7M LUSD to DAI through a 2-day LBP auction on Balancer\n  - Move all protocol-owned DAI out of Compound\n  - Finalize the deprecation of TRIBE buyback contracts\n  - Move gOHM to an OTC contract where Olympus can get it back by returning TRIBE (FIP-108)\n  - Withdraw as much as possible protocol FEI when liquidity available from various PCV deployments\n  ";
}
