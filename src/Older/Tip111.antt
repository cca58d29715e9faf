-- ===== src/Older/Tip111.antt =====
-- proposals/description/old/tip_111.ts.
use tribe.Base.{[], ◌∷◌}
use tribe.Js.{get}
use tribe.Types.{address, text, TemplatedProposalDescription}
use tribe.Tips.Tip121c.{command}

unfoldable pub tip_111 : TemplatedProposalDescription
tip_111 = record {
  title = "TIP-111: Increase FEI Stable backing to 90-100%";
  commands =
      command "ratioPCVControllerV2" "0" "withdrawRatioERC20(address,address,address,uint256)"
        (λ a.
          address (get a "ethLidoPCVDepositOld")
          ∷ address (get a "steth")
          ∷ address (get a "ethLidoPCVDeposit")
          ∷ text "10000"
          ∷ [])
        "Migrate all stETH to new PCVDeposit"
      ∷ command "balancerGaugeStaker" "0" "unstakeFromGauge(address,uint256)"
          (λ a. address (get a "bpt30Fei70Weth") ∷ text "252865858892972812879565" ∷ [])
          "Unstake all B-70WETH-30FEI from Balancer gauge"
      ∷ command "ratioPCVControllerV2" "0" "withdrawRatioERC20(address,address,address,uint256)"
          (λ a.
            address (get a "balancerGaugeStaker")
            ∷ address (get a "bpt30Fei70Weth")
            ∷ address (get a "balancerDepositFeiWeth")
            ∷ text "10000"
            ∷ [])
          "Move all B-70WETH-30FEI to Balancer deposit"
      ∷ command "balancerDepositFeiWeth" "0" "exitPool(address)"
          (λ a. address (get a "balancerDepositFeiWeth") ∷ [])
          "Exit LP position and send WETH to self, while burning the FEI"
      ∷ command "ratioPCVControllerV2" "0" "withdrawRatioERC20(address,address,address,uint256)"
          (λ a.
            address (get a "balancerDepositFeiWeth")
            ∷ address (get a "weth")
            ∷ address (get a "aaveEthPCVDeposit")
            ∷ text "10000"
            ∷ [])
          "Move all WETH to Aave PCVDeposit"
      ∷ command "aaveEthPCVDeposit" "0" "deposit()" (λ a. []) "Deposit all WETH in Aave"
      ∷ command "ratioPCVControllerV2" "0" "withdrawRatio(address,address,uint256)"
          (λ a. address (get a "aaveEthPCVDeposit") ∷ address (get a "ethPSM") ∷ text "10000" ∷ [])
          "Move all WETH from Aave to ETH PSM"
      ∷ command "collateralizationOracle" "0" "swapDeposit(address,address)"
          (λ a.
            address (get a "ethLidoPCVDepositOldWrapper")
            ∷ address (get a "ethLidoPCVDeposit")
            ∷ [])
          "Swap old & new Lido ETH PCVDeposits in CR Oracle"
      ∷ command "dpiToDaiLBPSwapper" "0" "exitPool(address)"
          (λ a. address (get a "compoundDaiPCVDeposit") ∷ [])
          "Withdraw all DAI and DPI from LBP pool to the compoundDAIPCVDeposit (~$3.8m)"
      ∷ command "ratioPCVControllerV2" "0" "withdrawRatioERC20(address,address,address,uint256)"
          (λ a.
            address (get a "compoundDaiPCVDeposit")
            ∷ address (get a "dpi")
            ∷ address (get a "tribalCouncilSafe")
            ∷ text "10000"
            ∷ [])
          "Withdraw all DPI from the Compound DAI PCV deposit (~$200k) to the TribalCouncil multisig, where it will be liquidated"
      ∷ command "compoundDaiPCVDeposit" "0" "deposit()" (λ a. [])
          "Deposit DAI on compoundDAIPCVdeposit into Compound"
      ∷ [];
  description =
      "TIP-111: Increase FEI Stable backing to 90-100%\n\nThis on-chain proposal will perform the following actions :\n- Migrate stETH (Lido staked ETH) to a PCVDeposit where the Chainlink oracle is used to check for slippage, instead of a hardcoded 1:1 peg (the parameter for slippage check keeps the same behavior, but will tolerate a slippage vs the Chainlink oracle price, and not vs a theorhetical 1:1 peg).\n- Unstake all B-70WETH-30FEI from Balancer gauge, remove FEI/WETH liquidity from Balancer, burn the FEI, and move WETH to PSM\n\nThese actions are part of TIP-111 and will allow Guardian to perform actions to defend the FEI peg and continue to increase the stable backing (percentage of stable assets in the PCV).\n\n-------------------------------\nAlso contains code from FIP_104b: Withdraw all liquidity from the DPI LBP. \n\nThis FIP cleans up and finishes elements of the PCV reinforcement process snapshotted here:\nhttps://snapshot.fei.money/#/proposal/0x2fd5bdda0067098f6c0520fe309dfe90ca403758f0ce98c1854a00bf38999674  \nand discussed here: https://tribe.fei.money/t/fip-104-fei-pcv-reinforcement-proposal/4162 .\n\nSpecifically it:\n- Exits the LBP pool and withdraws all liquidity to the compound DAI deposit\n- Withdraws the DPI from the deposit to the TribalCouncil multisig, using the ratioPCVController\n- Deposits the DAI on the deposit into Compound\n";
}
