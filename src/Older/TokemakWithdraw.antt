-- ===== src/Older/TokemakWithdraw.antt =====
-- proposals/description/old/tokemak_withdraw.ts.
use tribe.Base.{[], ◌∷◌}
use tribe.Types.{text, TemplatedProposalDescription}
use tribe.Tips.Tip121c.{command}

unfoldable pub tokemak_withdraw : TemplatedProposalDescription
tokemak_withdraw = record {
  title = "Withdraw from Tokemak";
  commands =
      command "ethTokemakPCVDeposit" "0" "requestWithdrawal(uint256)"
        (λ a. text "10000000000000000000000" ∷ [])
        "Request to withdraw 10K WETH from Tokemak in the next cycle"
      ∷ [];
  description =
      "\n  FIP 111: Request withdrawal from Tokemak\n\n  Request a withdrawal of 10k ETH from Tokemak in the next cycle.\n  ";
}
