-- ===== src/Older/Phase1.antt =====
-- proposals/description/old/phase_1.ts.
use tribe.Base.{[], ◌∷◌, ℕ}
use tribe.Js.{get}
use tribe.Types.{address, number, text, TemplatedProposalDescription}
use tribe.Tips.Tip121c.{command}
use tribe.Tips.Tip121b.{parse_ether}

abbrev min_fei_out : ℕ
min_fei_out = parse_ether 20000000

abbrev min_tribe_out : ℕ
min_tribe_out = parse_ether 120000000

unfoldable pub phase_1 : TemplatedProposalDescription
phase_1 = record {
  title = "TIP-120: Return Unvested Tokens";
  commands =
      command "feiLabsVestingTimelock" "0" "acceptBeneficiary()" (λ a. [])
        "Accept beneficiary on Fei Labs vesting contract as the DAO timelock"
      ∷ command "uniswapFeiTribeLiquidityTimelock" "0" "acceptBeneficiary()" (λ a. [])
          "Accept beneficiary for Fei Labs Uniswap Fei-Tribe Timelock (Uni-LP)"
      ∷ command "uniswapFeiTribeLiquidityTimelock" "0" "unlockLiquidity()" (λ a. [])
          "Release all Fei-Tribe LP tokens to the Tribe DAO timelock"
      ∷ command "feiTribePair" "0" "transfer(address,uint256)"
          (λ a.
            address (get a "investorUniswapFeiTribeTimelock")
            ∷ text "23996686013920804984559112"
            ∷ [])
          "\n      Transfer unlocked investor FEI-TRIBE LP tokens to the new linear vesting timelock.\n      "
      ∷ command "feiTribePair" "0" "transfer(address,uint256)"
          (λ a. address (get a "uniswapLiquidityRemover") ∷ text "132453262024125114893965413" ∷ [])
          "\n      Send Fei Labs yet-to-be-vested LP tokens to the Uniswap liquidity removal contract.\n      This is to allow the liquidity to be removed from Uniswap and returned to the DAO.\n      "
      ∷ command "uniswapLiquidityRemover" "0" "redeemLiquidity(uint256,uint256)"
          (λ a. number min_fei_out ∷ number min_tribe_out ∷ [])
          "\n      Remove liquidity from the Uniswap V2 pool by redeeming the LP tokens for FEI and TRIBE.\n      \n      As part of the contract call, all redeemed FEI is burned and all redeemed TRIBE is sent to Core.\n      "
      ∷ command "tribe" "0" "approve(address,uint256)"
          (λ a. address (get a "tribalCouncilTimelock") ∷ text "0" ∷ [])
          "Revoke the TRIBE approval given to the Tribal Council timelock"
      ∷ command "tribe" "0" "transfer(address,uint256)"
          (λ a. address (get a "core") ∷ text "16928757542558284368284929" ∷ [])
          "Send the DAO timelock ~17M TRIBE to the Core Treasury"
      ∷ [];
  description =
      "\n  TIP-120: Return Unvested Tokens\n\n  Fei Labs will stop participating in the Tribe DAO upon completion of the TIP-121 proposal here https://tribe.fei.money/t/tip-121-proposal-for-the-future-of-the-tribe-dao/4475. This DAO vote will only transfer any unvested Fei Labs tokens to the DAO and move TRIBE from the DAO timelock to the treasury, with no actions related to TIP-121.\n\n  There are two timelocks of such unvested tokens of note, the TRIBE timelock which has 88909000000000000000000000 (~88.9M) unvested TRIBE and the FEI-TRIBE LP Timelock which has 132453262024125114893965413 (~132.4M) unvested LP tokens. The end date for the vesting used is July 1, 2022. All of these tokens will be returned to the DAO by granting ownership of the timelocks to the DAO. The DAO could claim the tokens from the timelocks as needed or simply account for them as not in circulation.\n\n  Note the LP Timelock includes a portion 23996686013920804984559112 (~24M) LP tokens which are locked for Fei Labs early supporters. These will be transferred to a new timelock and remain as liquidity, after returning the team’s unvested LP tokens to the DAO.\n\n  The FEI-TRIBE LP Tokens which return to the DAO would be broken up into FEI, which would be burned, and TRIBE, which would be sent to the treasury. The benefit of breaking up these LP tokens is having certainty on the number of TRIBE in the treasury and FEI removed from circulation for accounting purposes. \n  ";
}
