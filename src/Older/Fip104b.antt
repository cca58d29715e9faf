-- ===== src/Older/Fip104b.antt =====
-- proposals/description/old/fip_104b.ts.
use tribe.Base.{[], ◌∷◌}
use tribe.Js.{get}
use tribe.Types.{address, text, TemplatedProposalDescription}
use tribe.Tips.Tip121c.{command}

unfoldable pub fip_104b : TemplatedProposalDescription
fip_104b = record {
  title = "FIP_104b: Withdraw LBP liquidity";
  commands =
      command "dpiToDaiLBPSwapper" "0" "exitPool(address)"
        (λ a. address (get a "compoundDaiPCVDeposit") ∷ [])
        "Withdraw all DAI and DPI from LBP pool to the compoundDAIPCVDeposit (~$3.8m)"
      ∷ command "ratioPCVControllerV2" "0" "withdrawRatioERC20(address,address,address,uint256)"
          (λ a.
            address (get a "compoundDaiPCVDeposit")
            ∷ address (get a "dpi")
            ∷ address (get a "tribalCouncilSafe")
            ∷ text "10000"
            ∷ [])
          "Withdraw all DPI from the Compound DAI PCV deposit (~$200k) to the TribalCouncil multisig, where it will be liquidated"
      ∷ command "compoundDaiPCVDeposit" "0" "deposit()" (λ a. [])
          "Deposit DAI on compoundDAIPCVdeposit into Compound"
      ∷ [];
  description =
      "\n  FIP_104b: Withdraw all liquidity from the DPI LBP. \n\n  This FIP cleans up and finishes elements of the PCV reinforcement process snapshotted here:\n  https://snapshot.fei.money/#/proposal/0x2fd5bdda0067098f6c0520fe309dfe90ca403758f0ce98c1854a00bf38999674  \n  and discussed here: https://tribe.fei.money/t/fip-104-fei-pcv-reinforcement-proposal/4162 .\n\n  Specifically it:\n  - Exits the LBP pool and withdraws all liquidity to the compound DAI deposit\n  - Withdraws the DPI from the deposit to the TribalCouncil multisig, using the ratioPCVController\n  - Deposits the DAI on the deposit into Compound\n  ";
}
