-- ===== src/Older/EndTribeIncentivesOne.antt =====
-- proposals/description/old/end_tribe_incentives.ts: its first commands.
use tribe.Base.{List, [], ◌∷◌, false}
use tribe.Js.{get}
use tribe.Types.{address, text, boolean, TemplatedProposalCommand}
use tribe.Tips.Tip121c.{command}

abbrev pub end_tribe_incentives_first : List TemplatedProposalCommand
end_tribe_incentives_first =
    command "core" "0" "grantRole(bytes32,address)"
      (λ a.
        text "0x23970cab3799b6876df4319661e6c03cc45bd59628799d92e988dd8cbdc90e31"
        ∷ address (get a "tribalCouncilTimelock")
        ∷ [])
      "Grant TRIBAL_CHIEF_ADMIN_ROLE to Tribal Council timelock"
    ∷ command "tribalChief" "0" "set(uint256,uint120,address,bool)"
        (λ a.
          text "0"
          ∷ text "1"
          ∷ text "0x0000000000000000000000000000000000000000"
          ∷ boolean false
          ∷ [])
        "Set Pool 0 rewards to 1 and do not overwrite or change the rewarder"
    ∷ command "tribalChief" "0" "set(uint256,uint120,address,bool)"
        (λ a.
          text "1"
          ∷ text "0"
          ∷ text "0x0000000000000000000000000000000000000000"
          ∷ boolean false
          ∷ [])
        "Set Pool 1 rewards to 0 and do not overwrite or change the rewarder"
    ∷ command "tribalChief" "0" "set(uint256,uint120,address,bool)"
        (λ a.
          text "2"
          ∷ text "0"
          ∷ text "0x0000000000000000000000000000000000000000"
          ∷ boolean false
          ∷ [])
        "Set Pool 2 rewards to 0 and do not overwrite or change the rewarder"
    ∷ command "tribalChief" "0" "set(uint256,uint120,address,bool)"
        (λ a.
          text "3"
          ∷ text "0"
          ∷ text "0x0000000000000000000000000000000000000000"
          ∷ boolean false
          ∷ [])
        "Set Pool 3 rewards to 0 and do not overwrite or change the rewarder"
    ∷ command "tribalChief" "0" "set(uint256,uint120,address,bool)"
        (λ a.
          text "4"
          ∷ text "0"
          ∷ text "0x0000000000000000000000000000000000000000"
          ∷ boolean false
          ∷ [])
        "Set Pool 4 rewards to 0 and do not overwrite or change the rewarder"
    ∷ command "tribalChief" "0" "set(uint256,uint120,address,bool)"
        (λ a.
          text "5"
          ∷ text "0"
          ∷ text "0x0000000000000000000000000000000000000000"
          ∷ boolean false
          ∷ [])
        "Set Pool 5 rewards to 0 and do not overwrite or change the rewarder"
    ∷ command "tribalChief" "0" "set(uint256,uint120,address,bool)"
        (λ a.
          text "6"
          ∷ text "0"
          ∷ text "0x0000000000000000000000000000000000000000"
          ∷ boolean false
          ∷ [])
        "Set Pool 6 rewards to 0 and do not overwrite or change the rewarder"
    ∷ command "tribalChief" "0" "set(uint256,uint120,address,bool)"
        (λ a.
          text "7"
          ∷ text "0"
          ∷ text "0x0000000000000000000000000000000000000000"
          ∷ boolean false
          ∷ [])
        "Set Pool 7 rewards to 0 and do not overwrite or change the rewarder"
    ∷ command "tribalChief" "0" "set(uint256,uint120,address,bool)"
        (λ a.
          text "8"
          ∷ text "0"
          ∷ text "0x0000000000000000000000000000000000000000"
          ∷ boolean false
          ∷ [])
        "Set Pool 8 rewards to 0 and do not overwrite or change the rewarder"
    ∷ command "tribalChief" "0" "set(uint256,uint120,address,bool)"
        (λ a.
          text "9"
          ∷ text "0"
          ∷ text "0x0000000000000000000000000000000000000000"
          ∷ boolean false
          ∷ [])
        "Set Pool 9 rewards to 0 and do not overwrite or change the rewarder"
    ∷ command "tribalChief" "0" "set(uint256,uint120,address,bool)"
        (λ a.
          text "10"
          ∷ text "0"
          ∷ text "0x0000000000000000000000000000000000000000"
          ∷ boolean false
          ∷ [])
        "Set Pool 10 rewards to 0 and do not overwrite or change the rewarder"
    ∷ command "tribalChief" "0" "set(uint256,uint120,address,bool)"
        (λ a.
          text "11"
          ∷ text "0"
          ∷ text "0x0000000000000000000000000000000000000000"
          ∷ boolean false
          ∷ [])
        "Set Pool 11 rewards to 0 and do not overwrite or change the rewarder"
    ∷ command "tribalChief" "0" "set(uint256,uint120,address,bool)"
        (λ a.
          text "12"
          ∷ text "0"
          ∷ text "0x0000000000000000000000000000000000000000"
          ∷ boolean false
          ∷ [])
        "Set Pool 12 rewards to 0 and do not overwrite or change the rewarder"
    ∷ command "tribalChief" "0" "set(uint256,uint120,address,bool)"
        (λ a.
          text "13"
          ∷ text "0"
          ∷ text "0x0000000000000000000000000000000000000000"
          ∷ boolean false
          ∷ [])
        "Set Pool 13 rewards to 0 and do not overwrite or change the rewarder"
    ∷ command "tribalChief" "0" "set(uint256,uint120,address,bool)"
        (λ a.
          text "14"
          ∷ text "0"
          ∷ text "0x0000000000000000000000000000000000000000"
          ∷ boolean false
          ∷ [])
        "Set Pool 14 rewards to 0 and do not overwrite or change the rewarder"
    ∷ []
