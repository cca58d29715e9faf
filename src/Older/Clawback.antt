-- ===== src/Older/Clawback.antt =====
-- proposals/description/old/clawback.ts.
use tribe.Base.{[], ◌∷◌}
use tribe.Js.{get}
use tribe.Types.{address, text, TemplatedProposalDescription}
use tribe.Tips.Tip121c.{command}

unfoldable pub clawback : TemplatedProposalDescription
clawback = record {
  title = "FIP-113: End Departed Rari Founders Vesting of TRIBE";
  commands =
      command "fei" "0" "mint(address,uint256)"
        (λ a. address (get a "newRariInfraFeiTimelock") ∷ text "3178504756468797564687976" ∷ [])
        "Mint FEI to the new Rari Infra FEI timelock"
      ∷ command "core" "0" "allocateTribe(address,uint256)"
          (λ a. address (get a "newRariInfraTribeTimelock") ∷ text "3178502219685438863521056" ∷ [])
          "Allocate TRIBE to the new Rari Infra TRIBE timelock"
      ∷ command "clawbackVestingContractA" "0" "clawback()" (λ a. [])
          "Clawback the TRIBE of Jai Bhavnani and David Lucid"
      ∷ command "clawbackVestingContractB" "0" "clawback()" (λ a. [])
          "Clawback the TRIBE of Jai Bhavnani and David Lucid"
      ∷ command "clawbackVestingContractC" "0" "clawback()" (λ a. [])
          "Clawback the TRIBE of Jai Bhavnani and David Lucid"
      ∷ command "tribe" "0" "approve(address,uint256)"
          (λ a. address (get a "tribalCouncilTimelock") ∷ text "20000000000000000000000000" ∷ [])
          "Approve the Tribal Council Timelock for 20M TRIBE. It will later transfer the TRIBE to the Core Treasury"
      ∷ [];
  description =
      "\n  FIP-113: End Departed Rari Founders Vesting of TRIBE\n\n  This proposal enacts the steps discussed and detailed in the this forum post: https://tribe.fei.money/t/end-departed-rari-founders-vesting-of-tribe/4355\n\n  Specifically, it:\n  1. Mints FEI and allocates TRIBE to the newly deployed and migrated Rari Infrastructure team timelocks\n  2. Clawback of Jai Bhavnani's and David Lucid's TRIBE vesting contracts\n  3. Approves the Tribal Council timelock for 20M TRIBE, which it will later transfer to the Core Treasury\n  ";
}
