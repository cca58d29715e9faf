-- ===== src/Older/Tests.antt =====
-- An encoding and a plugin that accept everything.
use tribe.Base.{refl, sym, [], ◌∷◌, ◌++◌, ok, ok-injective, All}
use tribe.Governance.Proposal.{Abi, Plugin}
use tribe.Older.Targets.{IsTargeted, IsConstructed, named, unnamed, older_targets}

abbrev abi : Abi
abi = record { to_address = λ s. 7; to_uint256 = λ s. 0; encode = λ method arguments. ok [] }

abbrev plugin : Plugin abi
plugin = record {
  add_contract_action = λ target method arguments value so_far.
      ok (
        so_far
        ++ record { target = target; value = value; signature = method; calldata = [] } ∷ []);
  add_contract_action-eq-ok =
      λ target method arguments value so_far all h. ([], (refl, sym (ok-injective h)));
}

older_targets_example :
    All IsTargeted (named (λ s. 1)) × All (λ info. ¬ IsConstructed abi plugin info []) unnamed
older_targets_example = older_targets (λ s. 1) abi plugin []
