-- ===== src/Older/TcConsolidate.antt =====
-- proposals/description/old/tc_consolidate.ts.
use tribe.Base.{[], ◌∷◌, String}
use tribe.Js.{get}
use tribe.Types.{address, text, TemplatedProposalDescription}
use tribe.Tips.Tip121c.{command}

abbrev tc_fei_to_burn : String
tc_fei_to_burn = "42905768215167745773610059"

abbrev clawed_back_fei_upper_bound : String
clawed_back_fei_upper_bound = "2897332829955035696312531"

abbrev clawed_back_tribe_upper_bound : String
clawed_back_tribe_upper_bound = "3068505367127310595321005"

abbrev tc_lqty_balance : String
tc_lqty_balance = "1101298805118942906652299"

abbrev tc_idle_balance : String
tc_idle_balance = "16014201190265555827419"

abbrev tc_fox_balance : String
tc_fox_balance = "15316691965631380244403204"

unfoldable pub tc_consolidate : TemplatedProposalDescription
tc_consolidate = record {
  title = "TIP-122: End Rari team vesting and consolidate Tribal Council assets";
  commands =
      command "fei" "0" "burn(uint256)" (λ a. text tc_fei_to_burn ∷ [])
        "Burn all existing 42.9M FEI on the Tribal Council timelock"
      ∷ command "newRariInfraFeiTimelock" "0" "clawback()" (λ a. [])
          "End the vesting of FEI to the Rari Infra FEI timelock, return funds to the Tribal Council timelock"
      ∷ command "newRariInfraTribeTimelock" "0" "clawback()" (λ a. [])
          "End the vesting of TRIBE to the Rari Infra TRIBE timelock, return funds to the Tribal Council timelock"
      ∷ command "fei" "0" "approve(address,uint256)"
          (λ a. address (get a "feiDAOTimelock") ∷ text clawed_back_fei_upper_bound ∷ [])
          "\n      Approve the DAO timelock to move all Fei clawed back from the Rari Infra team\n      It will later burn it.\n      "
      ∷ command "tribe" "0" "approve(address,uint256)"
          (λ a. address (get a "feiDAOTimelock") ∷ text clawed_back_tribe_upper_bound ∷ [])
          "\n      Approve the DAO timelock to move all TRIBE clawed back from the Rari Infra team.\n      It will later send it to Core.\n      "
      ∷ command "idle" "0" "transfer(address,uint256)"
          (λ a. address (get a "tribalCouncilSafe") ∷ text tc_idle_balance ∷ [])
          "Send all 16k IDLE to the TC safe"
      ∷ command "lqty" "0" "transfer(address,uint256)"
          (λ a. address (get a "feiDAOTimelock") ∷ text tc_lqty_balance ∷ [])
          "Send all 1.1M LQTY to the DAO timelock"
      ∷ command "fox" "0" "transfer(address,uint256)"
          (λ a. address (get a "feiDAOTimelock") ∷ text tc_fox_balance ∷ [])
          "Send all 15.3M FOX to the DAO timelock"
      ∷ [];
  description =
      "\n  TIP-122: End Rari team vesting and consolidate Tribal Council assets\n\n  This proposal ends the vesting of the Rari Infrastructure team by clawing back their Fei and Tribe timelocks. It also consolidates the assets present on the Tribal Council timelock.\n\n  End of Rari Team Vesting\n  —--------------------------------\n  The Rari Infrastructure team has two timelocks in which funds are vesting. There is a FEI vesting timelock (https://etherscan.io/address/0x5d39721BA1c734b395C2CAdbdeeC178F688F6ec9) and a TRIBE vesting timelock (https://etherscan.io/address/0x20bC8FE104fadED2D0aD9634D745f1488f9991eF). There is ~2.8M FEI and ~2.8M TRIBE available to be clawed back from these timelocks. \n\n  The funds will be returned to the Tribal Council timelock. An approval is granted to the DAO timelock to later allow the DAO to move the recovered FEI and TRIBE. \n\n  Asset consolidation\n  —-------------------------\n  The Tribal Council timelock has various assets which are being consolidated and moved off the timelock:\n  ~43M FEI is being burned\n  ~1.1M LQTY is being sent to the DAO timelock\n  ~15.3M FOX is being sent to the DAO timelock\n  ~16k IDLE is being sent to the Tribal Council Safe, where it will then be sold\n\n  The optimistic governance process used by the Tribe DAO and the role of the NopeDAO is documented here: https://docs.tribedao.xyz/docs/Governance/Overview \n  ";
}
