-- ===== src/Governance/Pod.antt =====
-- scripts/utils/simulateTimelockProposal.ts and contracts/pods/GovernanceMetadataRegistry.sol: a pod's
-- proposal scheduled, registered and executed. The timelock of a pod, OptimisticTimelock.sol, is
-- OpenZeppelin's TimelockController with another admin; its batches are a parameter.
use tribe.Base.{
  ℕ, ◌+◌, ◌≤◌, ◌≡◌, ◌≢◌, Bool, true, false, not, ◌&&◌, Option, none, some, String, List, [], ◌∷◌,
  ◌++◌, Result, ok, err, ◌>>=◌, ◌>>◌, require, str_eq, update, All, if◌then◌else◌,
}
use tribe.Js.{get}
use tribe.Types.{NamedAddresses, TemplatedProposalCommand, TemplatedProposalDescription}
use tribe.Governance.Timelock.{Transaction, Chain}
use tribe.Governance.Proposal.{Abi, defined}
use tribe.Governance.Simulate.{run_calls}

-- The registry's storage: whether the hash of a pod, a proposal and its metadata is registered.
pub record Registry : Type 0 where
  pub registration : ℕ → Bool

-- `allowed` is the check of POD_METADATA_REGISTER_ROLE, and `hash` that of the three arguments.
unfoldable pub register_proposal : (allowed : Bool) → ℕ → String → Registry → Result Registry
register_proposal allowed hash metadata r = do
  require allowed "UNAUTHORIZED"
  require (not (str_eq metadata "")) "Metadata must be non-empty"
  require (not (r.registration hash)) "Proposal already registered"
  ok (record { registration = update r.registration hash true })

-- What is outside of the timelock after an execution.
abbrev pub outside_of : {S W : Type 0} → Result (S × W) → Option W
outside_of (ok s) = some s.1
outside_of (err reason) = none

-- TimelockController. A batch is known by its hash, with the salt. A proposer can schedule a batch
-- that is not known, for the minimum delay from then on; then it is ready, and not done. An executor
-- who executes a batch that is ready, of calls of other contracts, makes the calls one after another,
-- and fails where one of them fails.
pub record Controller (v : Chain) : Type 1 where
  pub State : Type 0
  pub min_delay : State → ℕ
  pub may_propose : State → ℕ → Bool
  pub may_execute : State → ℕ → Bool
  pub hash_operation_batch : List Transaction → (salt : String) → ℕ
  pub is_operation : State → ℕ → Bool
  pub is_operation_ready : ℕ → State → ℕ → Bool
  pub is_operation_done : State → ℕ → Bool
  -- time, caller, calls, salt, delay
  pub schedule_batch : ℕ → ℕ → List Transaction → String → ℕ → State → Result State
  -- time, caller, calls, salt
  pub execute_batch : ℕ → ℕ → List Transaction → String → State → v.World → Result (State × v.World)
  pub schedule_succeeds :
      (now caller : ℕ) (batch : List Transaction) (salt : String) (s : State)
      → may_propose s caller ≡ true
      → is_operation s (hash_operation_batch batch salt) ≡ false
      → (s' : State) × ((schedule_batch now caller batch salt (min_delay s) s ≡ ok s')
          × ((later : ℕ)
              → now + min_delay s ≤ later
              → is_operation_ready later s' (hash_operation_batch batch salt) ≡ true)
          × (is_operation_done s' (hash_operation_batch batch salt) ≡ false)
          × (may_execute s' caller ≡ may_execute s caller))
  pub execute-run :
      (now caller : ℕ) (batch : List Transaction) (salt : String) (s : State) (w : v.World)
      → may_execute s caller ≡ true
      → is_operation_ready now s (hash_operation_batch batch salt) ≡ true
      → All (λ a. a.target ≢ v.this) batch
      → outside_of (execute_batch now caller batch salt s w) ≡ run_calls v batch w

abbrev pub known_contract : Option String → Result String
known_contract none = err "Unknown contract, cannot parse"
known_contract (some x) = ok x

module _ (v : Chain) (c : Controller v) (abi : Abi) where
  -- The pod's timelock, the registry and the rest of the world.
  pub record Pod : Type 0 where
    pub controller : c.State
    pub registry : Registry
    pub world : v.World

  -- The targets, values and datas, as calls without a signature.
  unfoldable pub pod_calls :
      (contracts names : NamedAddresses) → List TemplatedProposalCommand → Result (List Transaction)
  pod_calls contracts names [] = ok []
  pod_calls contracts names (x ∷ commands) = do
    contract ← known_contract (get contracts x.target)
    target ← known_contract (get names x.target)
    bytes ← abi.encode x.method (x.arguments names)
    rest ← pod_calls contracts names commands
    ok (
        record {
          target = abi.to_address target;
          value = abi.to_uint256 x.values;
          signature = "";
          calldata = v.selector x.method ++ bytes;
        }
        ∷ rest)

  -- Pods register with `metadata_hash`, which has the pod and the proposal in it.
  module _ (allowed : ℕ → Bool) (metadata_hash : ℕ → String → ℕ) where
    unfoldable pub schedule :
        (now signer : ℕ) → List Transaction → TemplatedProposalDescription → Pod → Result Pod
    schedule now signer batch info s =
        let id = c.hash_operation_batch batch info.title in
        let delay = c.min_delay s.controller in
        if c.is_operation s.controller id
        then ok s
        else (c.schedule_batch now signer batch info.title delay s.controller >>= (λ controller.
            register_proposal (allowed signer) (metadata_hash id info.description) info.description
              s.registry
            >>= (λ registry. ok (record s { controller = controller; registry = registry }))))

    unfoldable pub execute :
        (later signer : ℕ) → List Transaction → TemplatedProposalDescription → Pod → Result Pod
    execute later signer batch info s =
        let id = c.hash_operation_batch batch info.title in
        if c.is_operation_ready later s.controller id && not (c.is_operation_done s.controller id)
        then (c.execute_batch later signer batch info.title s.controller s.world
            >>= (λ after. ok (record s { controller = after.0; world = after.1 })))
        else ok s

    -- `simulatePodProposal`, scheduled at the time `now`, with the rest at `later`
    unfoldable pub simulate_pod :
        (now later signer : ℕ) (contracts names : NamedAddresses)
        → TemplatedProposalDescription
        → Pod
        → Result Pod
    simulate_pod now later signer contracts names info s = do
      batch ← pod_calls contracts names info.commands
      s' ← schedule now signer batch info s
      execute later signer batch info s'

    -- `simulateTCProposal`, of the Tribal Council, whose timelock is the controller
    unfoldable pub simulate_tc :
        (now later : ℕ) (contracts names : NamedAddresses)
        → TemplatedProposalDescription
        → Pod
        → Result Pod
    simulate_tc now later contracts names info s = do
      safe ← defined (get names "tribalCouncilSafe")
      simulate_pod now later (abi.to_address safe) contracts names info s
