-- ===== src/Older/Targets.antt =====
-- The targets of the older proposals among the contracts of protocol-configuration.
use tribe.Base.{ℕ, ◌≡◌, refl, ◌∙◌, Bool, not, arith, true, String, List, [], ◌∷◌, ok, All}
use tribe.Js.{get}
use tribe.Types.{TemplatedProposalCommand, TemplatedProposalDescription}
use tribe.Governance.Timelock.{Transaction}
use tribe.Governance.Proposal.{Abi, Plugin, construct_proposal}
use tribe.Governance.Construct.{all_of, construct-known}
use tribe.Config.Holders.{get_all_contract_addresses, mainnet_contracts_config}
use tribe.Config.Contracts.{
  is_some, has_artifact, has_contract, get_all_contracts, get_all_contracts-get,
}
use tribe.Config.MainnetOne.{
  contracts_first, contracts_second, contracts_third, contracts_fourth, contracts_fifth,
}
use tribe.Config.MainnetTwo.{
  contracts_sixth, contracts_seventh, contracts_eighth, contracts_ninth, contracts_tenth,
}
use tribe.Config.MainnetThree.{
  contracts_eleventh, contracts_twelfth, contracts_thirteenth, contracts_fourteenth,
  contracts_fifteenth,
}
use tribe.Config.MainnetFour.{
  contracts_sixteenth, contracts_seventeenth, contracts_eighteenth, contracts_nineteenth,
}
use tribe.Older.Clawback.{clawback}
use tribe.Older.EndTribeIncentives.{end_tribe_incentives}
use tribe.Older.EthLbp.{eth_lbp}
use tribe.Older.Fip104b.{fip_104b}
use tribe.Older.Phase1.{phase_1}
use tribe.Older.PodExecV2.{pod_exec_v2}
use tribe.Older.TcConsolidate.{tc_consolidate}
use tribe.Older.Tip111.{tip_111}
use tribe.Older.Tip112.{tip_112}
use tribe.Older.Tip115.{tip_115}
use tribe.Older.Tip117.{tip_117}
use tribe.Older.Tip118.{tip_118}
use tribe.Older.Tip119.{tip_119}
use tribe.Older.Tip121a.{tip_121a}
use tribe.Older.TokemakWithdraw.{tokemak_withdraw}

-- Whether every target has a contract, asked of the table and of the contracts.
abbrev listed : List TemplatedProposalCommand → Bool
listed commands = all_of (λ c. has_contract mainnet_contracts_config c.target) commands

abbrev pub IsTargeted : TemplatedProposalDescription → Type 0
IsTargeted info = all_of (λ c. is_some (get get_all_contracts c.target)) info.commands ≡ true

targeted-listed :
    (commands : List TemplatedProposalCommand)
    → all_of (λ c. is_some (get get_all_contracts c.target)) commands ≡ listed commands
targeted-listed [] = refl
targeted-listed (c ∷ commands) = rw (get_all_contracts-get c.target, targeted-listed commands) refl

-- The proposals whose targets have all a contract, and those that call pcvGuardianNew.
abbrev pub named : (String → ℕ) → List TemplatedProposalDescription
named id =
    clawback
    ∷ end_tribe_incentives
    ∷ fip_104b
    ∷ phase_1
    ∷ pod_exec_v2 id
    ∷ tc_consolidate
    ∷ tip_111
    ∷ tip_117 id
    ∷ tip_118 id
    ∷ tip_119
    ∷ tip_121a
    ∷ tokemak_withdraw
    ∷ []

abbrev pub unnamed : List TemplatedProposalDescription
unnamed = eth_lbp ∷ tip_112 ∷ tip_115 ∷ []

named_listed : (id : String → ℕ) → all_of (λ info. listed info.commands) (named id) ≡ true
unfolding has_contract has_artifact mainnet_contracts_config contracts_first contracts_second
    contracts_third contracts_fourth contracts_fifth contracts_sixth contracts_seventh
    contracts_eighth contracts_ninth contracts_tenth contracts_eleventh contracts_twelfth
    contracts_thirteenth contracts_fourteenth contracts_fifteenth contracts_sixteenth
    contracts_seventeenth contracts_eighteenth contracts_nineteenth clawback end_tribe_incentives
    fip_104b phase_1 pod_exec_v2 tc_consolidate tip_111 tip_117 tip_118 tip_119 tip_121a
    tokemak_withdraw
named_listed id = refl

unnamed_unlisted : all_of (λ info. not (listed info.commands)) unnamed ≡ true
unfolding has_contract has_artifact mainnet_contracts_config contracts_first contracts_second
    contracts_third contracts_fourth contracts_fifth contracts_sixth contracts_seventh
    contracts_eighth contracts_ninth contracts_tenth contracts_eleventh contracts_twelfth
    contracts_thirteenth contracts_fourteenth contracts_fifteenth contracts_sixteenth
    contracts_seventeenth contracts_eighteenth contracts_nineteenth eth_lbp tip_112 tip_115
unnamed_unlisted = refl

-- What a test finds of every proposal holds of every proposal.
All_of :
    (test : TemplatedProposalDescription → Bool) (P : TemplatedProposalDescription → Type 0)
    (proposals : List TemplatedProposalDescription)
    → ((info : TemplatedProposalDescription) → test info ≡ true → P info)
    → all_of test proposals ≡ true
    → All P proposals
All_of test P [] found h = tt
All_of test P (info ∷ proposals) found h =
    (found info (ground (arith, h)), All_of test P proposals found (ground (arith, h)))

module _ (abi : Abi) (p : Plugin abi) where
  pub IsConstructed : TemplatedProposalDescription → List Transaction → Type 0
  IsConstructed info actions =
      construct_proposal abi p get_all_contracts get_all_contract_addresses info ≡ ok actions

  unlisted-never :
      (info : TemplatedProposalDescription) (actions : List Transaction)
      → not (listed info.commands) ≡ true
      → ¬ IsConstructed info actions
  unfolding IsConstructed
  unlisted-never info actions h made =
      let known =
        construct-known abi p get_all_contracts get_all_contract_addresses info actions made in
      let same = targeted-listed info.commands in ground (arith, h, known, same)

-- Of the fifteen older proposals, the three that call pcvGuardianNew cannot be constructed any more,
-- whatever the plugin and the encoding accept: eth_lbp, tip_112 and tip_115. The targets of the
-- twelve others are all contracts that the setup loads.
pub older_targets :
    (id : String → ℕ) (abi : Abi) (p : Plugin abi) (actions : List Transaction)
    → All IsTargeted (named id) × All (λ info. ¬ IsConstructed abi p info actions) unnamed
older_targets id abi p actions = (
  All_of (λ info. listed info.commands) IsTargeted (named id)
      (λ info h. targeted-listed info.commands ∙ h) (named_listed id),
  All_of (λ info. not (listed info.commands)) (λ info. ¬ IsConstructed abi p info actions) unnamed
      (λ info h. unlisted-never abi p info actions h) unnamed_unlisted,
)
