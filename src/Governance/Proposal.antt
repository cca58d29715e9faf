-- ===== src/Governance/Proposal.antt =====
-- scripts/utils/constructProposal.ts and scripts/utils/simulateDEBUGProposal.ts: the commands of a
-- proposal as transactions of the timelock, queued and executed, or sent one by one in its name.
-- The proposals plugin, ethers' encoding and the clock of the test chain are parameters.
use tribe.Base.{
  ℕ, suc, ◌+◌, ◌≡◌, Option, none, some, String, List, [], ◌∷◌, ◌++◌, Result, ok, err, ◌>>=◌, str_eq,
  ltb, ◌-◌, ◌^◌, if◌then◌else◌,
}
use tribe.Evm.{Bytes}
use tribe.Js.{get}
use tribe.Types.{NamedAddresses, Argument, TemplatedProposalCommand, TemplatedProposalDescription}
use tribe.Governance.Timelock.{
  Timelock, Transaction, Governed, Chain, queue_transaction, execute_transaction, perform,
}

-- ethers: an address, an amount of ether, and the arguments of a method without its selector.
pub record Abi : Type 0 where
  pub to_address : String → ℕ
  pub to_uint256 : String → ℕ
  pub encode : String → List Argument → Result Bytes

-- `AlphaProposalBuilder.addContractAction`, which adds to the actions so far: where it returns, one
-- action at the end, with the method as its signature and the encoded arguments.
pub record Plugin (abi : Abi) : Type 0 where
  pub add_contract_action :
      ℕ → String → List Argument → ℕ → List Transaction → Result (List Transaction)
  pub add_contract_action-eq-ok :
      (target : ℕ) (method : String) (arguments : List Argument) (value : ℕ)
      (so_far all : List Transaction)
      → add_contract_action target method arguments value so_far ≡ ok all
      → (bytes : Bytes) × ((abi.encode method arguments ≡ ok bytes)
          × (all
              ≡ so_far
                ++ record { target = target; value = value; signature = method; calldata = bytes }
                  ∷ []))

abbrev pub defined : Option String → Result String
defined none = err "Cannot read properties of undefined"
defined (some x) = ok x

module _ (abi : Abi) (p : Plugin abi) where
  -- The loop of `constructProposal` over the commands. `contracts` gives the address of each
  -- contract object.
  unfoldable pub add_commands :
      (contracts addresses : NamedAddresses)
      → List TemplatedProposalCommand
      → List Transaction
      → Result (List Transaction)
  add_commands contracts addresses [] actions = ok actions
  add_commands contracts addresses (c ∷ commands) actions = do
    contract ← defined (get contracts c.target)
    actions' ←
        p.add_contract_action (abi.to_address contract) c.method (c.arguments addresses)
          (abi.to_uint256 c.values) actions
    add_commands contracts addresses commands actions'

  unfoldable pub construct_proposal :
      (contracts addresses : NamedAddresses)
      → TemplatedProposalDescription
      → Result (List Transaction)
  construct_proposal contracts addresses info = add_commands contracts addresses info.commands []

module _ (v : Chain) where
  -- The loop `queuetxs`, in one block.
  unfoldable pub queue_all : (governor now eta : ℕ) → List Transaction → Timelock → Result Timelock
  queue_all governor now eta [] t = ok t
  queue_all governor now eta (a ∷ actions) t = do
    t' ← queue_transaction v now governor a eta t
    queue_all governor now eta actions t'

  -- The error that a failed execution is turned into.
  abbrev pub or_failed {ℓ} : {A : Type ℓ} → Result A → Result A
  or_failed (ok a) = ok a
  or_failed (err reason) = err "Proposal action failed."

  -- The loop `executetxs`: the i-th transaction runs in a block at the time `clock i`.
  unfoldable pub execute_all :
      (governor eta : ℕ)
      → (clock : ℕ → ℕ) → ℕ
      → List Transaction
      → Governed v.World
      → Result (Governed v.World)
  execute_all governor eta clock i [] s = ok s
  execute_all governor eta clock i (a ∷ actions) s = do
    s' ← or_failed (execute_transaction v (clock i) governor a eta s)
    execute_all governor eta clock (suc i) actions s'

  -- `SigmaProposal._simulate`, with the timestamp of the latest block, the time of the block of the
  -- queueing, and those of the executions.
  unfoldable pub simulate :
      (governor timestamp queued_at : ℕ)
      → (clock : ℕ → ℕ) → List Transaction
      → Governed v.World
      → Result (Governed v.World)
  simulate governor timestamp queued_at clock actions s = do
    let eta = s.timelock.delay + timestamp + 50
    t ← queue_all governor queued_at eta actions s.timelock
    execute_all governor eta clock 0 actions (record { timelock = t; world = s.world })

  -- `contractAddresses[cmd.target] || cmd.target`
  abbrev or_target : Option String → String → String
  or_target none target = target
  or_target (some x) target = if str_eq x "" then target else x

  -- `Number(value)`: ethers throws on a number of 2^53 - 1 or more.
  unfoldable pub number_value : Abi → String → Result ℕ
  number_value abi s =
      if ltb (abi.to_uint256 s) (2 ^ 53 - 1) then ok (abi.to_uint256 s) else err "overflow"

  -- `simulateDEBUGProposal`: each command sent by the timelock, with its calldata.
  unfoldable pub simulate_debug :
      (abi : Abi)
      → (contracts addresses : NamedAddresses) → List TemplatedProposalCommand
      → Governed v.World
      → Result (Governed v.World)
  simulate_debug abi contracts addresses [] s = ok s
  simulate_debug abi contracts addresses (c ∷ commands) s = do
    contract ← defined (get contracts c.target)
    bytes ← abi.encode c.method (c.arguments addresses)
    value ← number_value abi c.values
    s' ←
        perform v
          (record {
            target = abi.to_address (or_target (get addresses c.target) c.target);
            value = value;
            signature = "";
            calldata = v.selector c.method ++ bytes;
          })
          s
    simulate_debug abi contracts addresses commands s'
