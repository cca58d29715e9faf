-- ===== src/Governance/Debug.antt =====
-- The step-by-step simulation of a proposal makes the calls of its transactions.
use tribe.Base.{
  ok-injective, ◌≡◌, ◌≢◌, refl, sym, ap, subst, ◌∙◌, false, none, some, String, List, [], ◌∷◌, ◌++◌,
  Result, ok, err, ◌>>=◌, >>=-eq-ok, All, str_eq, ◌<◌, ◌-◌, ◌^◌, lt→ltb,
}
use mathlib.Core.List.{append_assoc, append-nil}
use tribe.Evm.{Bytes}
use tribe.Js.{get}
use tribe.Types.{NamedAddresses, TemplatedProposalCommand, TemplatedProposalDescription}
use tribe.Governance.Timelock.{Transaction, Governed, Chain, call_data}
use tribe.Governance.Proposal.{
  Abi, Plugin, add_commands, construct_proposal, simulate_debug, number_value,
}
use tribe.Governance.Simulate.{run_calls, world_of, perform-call}

module _ (v : Chain) (abi : Abi) (p : Plugin abi) (contracts addresses : NamedAddresses) where
  -- The target of a command has one address, which is not the timelock's, its method has a name, and
  -- its value is a safe integer of JavaScript.
  pub record IsKnown (c : TemplatedProposalCommand) : Type 0 where
    pub found : String
    pub contract : get contracts c.target ≡ some found
    pub same : get addresses c.target ≡ some found
    pub filled : str_eq found "" ≡ false
    pub named : str_eq c.method "" ≡ false
    pub small : abi.to_uint256 c.values < 2 ^ 53 - 1
    pub other : abi.to_address found ≢ v.this

  step-world :
      (commands : List TemplatedProposalCommand) (rest : List Transaction) (s : Governed v.World)
      (r : Result v.World)
      → ((u : Governed v.World)
          → world_of v (simulate_debug v abi contracts addresses commands u)
            ≡ run_calls v rest u.world)
      → world_of v (
          (r >>= (λ w. ok (record { timelock = s.timelock; world = w })))
          >>= simulate_debug v abi contracts addresses commands)
        ≡ elim r [ ok w ↦ run_calls v rest w | err reason ↦ none ]
  step-world commands rest s (ok w) k = k (record { timelock = s.timelock; world = w })
  step-world commands rest s (err reason) k = refl

  -- The transaction that the command of a method becomes.
  abbrev transaction : TemplatedProposalCommand → String → Bytes → Transaction
  transaction c found bytes = record {
    target = abi.to_address found;
    value = abi.to_uint256 c.values;
    signature = c.method;
    calldata = bytes;
  }

  call_data-transaction :
      (c : TemplatedProposalCommand) (found : String) (bytes : Bytes)
      → str_eq c.method "" ≡ false
      → call_data v (transaction c found bytes) ≡ v.selector c.method ++ bytes
  unfolding call_data
  call_data-transaction c found bytes named = rw named refl

  number_value-ok :
      (values : String)
      → abi.to_uint256 values < 2 ^ 53 - 1
      → number_value v abi values ≡ ok (abi.to_uint256 values)
  unfolding number_value
  number_value-ok values h = rw (lt→ltb _ _ h)

  -- What the step-by-step simulation sends for the command.
  abbrev direct : TemplatedProposalCommand → String → Bytes → Transaction
  direct c found bytes = record {
    target = abi.to_address found;
    value = abi.to_uint256 c.values;
    signature = "";
    calldata = v.selector c.method ++ bytes;
  }

  call_data-direct :
      (c : TemplatedProposalCommand) (found : String) (bytes : Bytes)
      → call_data v (direct c found bytes) ≡ v.selector c.method ++ bytes
  unfolding call_data
  call_data-direct c found bytes = refl

  run_calls-transaction :
      (c : TemplatedProposalCommand) (found : String) (bytes : Bytes) (rest : List Transaction)
      (w : v.World)
      → str_eq c.method "" ≡ false
      → run_calls v (transaction c found bytes ∷ rest) w
        ≡ elim (v.call
            (abi.to_address found)
            (abi.to_uint256 c.values)
            (v.selector c.method ++ bytes)
            w) [ ok w' ↦ run_calls v rest w' | err reason ↦ none ]
  run_calls-transaction c found bytes rest w named =
      ap
        (λ b. elim (v.call (abi.to_address found) (abi.to_uint256 c.values) b w) [
          | ok w' ↦ run_calls v rest w'
          | err reason ↦ none
        ])
        (call_data-transaction c found bytes named)

  sent :
      (c : TemplatedProposalCommand) (commands : List TemplatedProposalCommand) (bytes : Bytes)
      (rest : List Transaction) (s : Governed v.World) (k : IsKnown c)
      → abi.encode c.method (c.arguments addresses) ≡ ok bytes
      → ((u : Governed v.World)
          → world_of v (simulate_debug v abi contracts addresses commands u)
            ≡ run_calls v rest u.world)
      → world_of v (simulate_debug v abi contracts addresses (c ∷ commands) s)
        ≡ run_calls v (transaction c k.found bytes ∷ rest) s.world
  unfolding simulate_debug
  sent c commands bytes rest s k encoded after =
      rw
        (
          k.contract,
          k.same,
          encoded,
          number_value-ok c.values k.small,
          k.filled,
          perform-call v (direct c k.found bytes) s k.other,
          call_data-direct c k.found bytes,
        )
        (step-world commands rest s
          (v.call (abi.to_address k.found) (abi.to_uint256 c.values) (v.selector c.method ++ bytes)
            s.world)
          after)
      ∙ sym (run_calls-transaction c k.found bytes rest s.world k.named)

  debug_lem :
      (commands : List TemplatedProposalCommand) (so_far all : List Transaction)
      → All IsKnown commands
      → add_commands abi p contracts addresses commands so_far ≡ ok all
      → (rest : List Transaction) × ((all ≡ so_far ++ rest)
          × ((s : Governed v.World)
              → world_of v (simulate_debug v abi contracts addresses commands s)
                ≡ run_calls v rest s.world))
  unfolding add_commands simulate_debug
  debug_lem [] so_far all k h = ([], (sym (ok-injective h) ∙ sym (append-nil so_far), λ s. refl))
  debug_lem (c ∷ commands) so_far all k h =
      let known = k.0 in
      let h1 = rw known.contract at h in
      let (more, added, h2) =
        >>=-eq-ok
          (p.add_contract_action (abi.to_address known.found) c.method (c.arguments addresses)
            (abi.to_uint256 c.values) so_far)
          _ h1 in
      let (bytes, (encoded, shape)) =
        p.add_contract_action-eq-ok (abi.to_address known.found) c.method (c.arguments addresses)
          (abi.to_uint256 c.values) so_far more added in
      let (rest, (whole, runs)) = debug_lem commands more all k.1 h2 in
      (
        transaction c known.found bytes ∷ rest,
        (
          whole ∙ ap (λ x. x ++ rest) shape ∙ append_assoc so_far _ rest,
          λ s. sent c commands bytes rest s known encoded runs,
        ),
      )

-- For a proposal whose commands have known targets, other than the timelock, named methods and
-- values below 2^53 - 1 wei, the step-by-step simulation ends as the calls of the transactions do that `constructProposal` builds
-- of the same commands: it fails where one of them fails, and otherwise leaves the same world.
pub simulate_debug-run_calls :
    (v : Chain) (abi : Abi) (p : Plugin abi) (contracts addresses : NamedAddresses)
    (info : TemplatedProposalDescription) (actions : List Transaction) (s : Governed v.World)
    → All (IsKnown v abi p contracts addresses) info.commands
    → construct_proposal abi p contracts addresses info ≡ ok actions
    → world_of v (simulate_debug v abi contracts addresses info.commands s)
      ≡ run_calls v actions s.world
unfolding construct_proposal
simulate_debug-run_calls v abi p contracts addresses info actions s known built =
    let (rest, (whole, runs)) =
      debug_lem v abi p contracts addresses info.commands [] actions known built in
    subst
      (λ x.
        world_of v (simulate_debug v abi contracts addresses info.commands s)
        ≡ run_calls v x s.world)
      (sym whole) (runs s)
