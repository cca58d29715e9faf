-- ===== src/Governance/Construct.antt =====
-- What a proposal that `constructProposal` builds has.
use tribe.Base.{
  ◌≡◌, refl, Bool, true, ◌&&◌, Option, none, some, String, List, [], ◌∷◌, ok, >>=-eq-ok,
}
use tribe.Js.{get}
use tribe.Types.{NamedAddresses, TemplatedProposalCommand, TemplatedProposalDescription}
use tribe.Governance.Timelock.{Transaction}
use tribe.Governance.Proposal.{Abi, Plugin, defined, add_commands, construct_proposal}
use tribe.Config.Contracts.{is_some}

abbrev pub all_of {ℓ} : {A : Type ℓ} → (A → Bool) → List A → Bool
all_of p [] = true
all_of p (x ∷ xs) = p x && all_of p xs

module _ (abi : Abi) (p : Plugin abi) (contracts names : NamedAddresses) where
  some_of : (o : Option String) (a : String) → defined o ≡ ok a → is_some o ≡ true
  some_of none a h = cc
  some_of (some x) a h = refl

  add_commands-known :
      (commands : List TemplatedProposalCommand) (so_far all : List Transaction)
      → add_commands abi p contracts names commands so_far ≡ ok all
      → all_of (λ c. is_some (get contracts c.target)) commands ≡ true
  unfolding add_commands
  add_commands-known [] so_far all h = refl
  add_commands-known (c ∷ commands) so_far all h =
      let (a, ha, h1) = >>=-eq-ok (defined (get contracts c.target)) _ h in
      let (next, hn, h2) =
        >>=-eq-ok
          (p.add_contract_action (abi.to_address a) c.method (c.arguments names)
            (abi.to_uint256 c.values) so_far)
          _ h1 in
      rw (some_of (get contracts c.target) a ha, add_commands-known commands next all h2) refl

-- A proposal that has been constructed has only known targets.
pub construct-known :
    (abi : Abi) (p : Plugin abi) (contracts names : NamedAddresses)
    (info : TemplatedProposalDescription) (actions : List Transaction)
    → construct_proposal abi p contracts names info ≡ ok actions
    → all_of (λ c. is_some (get contracts c.target)) info.commands ≡ true
unfolding construct_proposal
construct-known abi p contracts names info actions h =
    add_commands-known abi p contracts names info.commands [] actions h
