-- ===== src/Governance/PodRuns.antt =====
-- What the simulation of a pod's proposal does to the world.
use tribe.Base.{
  ℕ, ◌+◌, ◌≤◌, ◌≡◌, ◌≢◌, refl, ◌∙◌, Bool, true, false, Option, none, some, String, List, Result, ok,
  err, ◌>>=◌, str_eq, update, All, arith,
}
use tribe.Types.{NamedAddresses, TemplatedProposalDescription}
use tribe.Governance.Timelock.{Transaction, Chain}
use tribe.Governance.Proposal.{Abi}
use tribe.Governance.Simulate.{run_calls}
use tribe.Governance.Pod.{
  Registry, register_proposal, Controller, outside_of, Pod, pod_calls, schedule, execute,
  simulate_pod,
}

module _ (v : Chain) (c : Controller v) (abi : Abi) (allowed : ℕ → Bool)
    (metadata_hash : ℕ → String → ℕ) where
  abbrev pub world_of : Result (Pod v c abi) → Option v.World
  world_of (ok s) = some s.world
  world_of (err reason) = none

  register-ok :
      (signer hash : ℕ) (metadata : String) (r : Registry)
      → allowed signer ≡ true
      → str_eq metadata "" ≡ false
      → r.registration hash ≡ false
      → register_proposal (allowed signer) hash metadata r
        ≡ ok (record { registration = update r.registration hash true })
  unfolding register_proposal
  register-ok signer hash metadata r may filled free = ground (arith, may, filled, free)

  after_execute :
      (s : Pod v c abi) (r : Result (c.State × v.World))
      → world_of (r >>= (λ after. ok (record s { controller = after.0; world = after.1 })))
        ≡ outside_of r
  after_execute s (ok after) = refl
  after_execute s (err reason) = refl

  execute-world :
      (later signer : ℕ) (batch : List Transaction) (info : TemplatedProposalDescription)
      (s : Pod v c abi)
      → c.may_execute s.controller signer ≡ true
      → c.is_operation_ready later s.controller (c.hash_operation_batch batch info.title) ≡ true
      → c.is_operation_done s.controller (c.hash_operation_batch batch info.title) ≡ false
      → All (λ a. a.target ≢ v.this) batch
      → world_of (execute v c abi allowed metadata_hash later signer batch info s)
        ≡ run_calls v batch s.world
  unfolding execute
  execute-world later signer batch info s may ready fresh others =
      rw (ready, fresh)
        (after_execute s (c.execute_batch later signer batch info.title s.controller s.world))
      ∙ c.execute-run later signer batch info.title s.controller s.world may ready others

-- The simulation of a pod's proposal that is not scheduled yet ends as its calls do, made directly
-- one after another: it fails where one of them fails, and otherwise leaves the same world. The
-- signer proposes, executes and registers for the pod, the description is not empty and not
-- registered, the calls are of other contracts than the timelock, and the minimum delay has passed
-- at the execution.
pub simulate_pod-run_calls :
    (v : Chain) (c : Controller v) (abi : Abi) (allowed : ℕ → Bool) (metadata_hash : ℕ → String → ℕ)
    (now later signer : ℕ) (contracts names : NamedAddresses) (info : TemplatedProposalDescription)
    (batch : List Transaction) (s : Pod v c abi)
    → pod_calls v c abi contracts names info.commands ≡ ok batch
    → c.is_operation s.controller (c.hash_operation_batch batch info.title) ≡ false
    → c.may_propose s.controller signer ≡ true
    → c.may_execute s.controller signer ≡ true
    → allowed signer ≡ true
    → str_eq info.description "" ≡ false
    → s.registry.registration
        (metadata_hash (c.hash_operation_batch batch info.title) info.description)
      ≡ false
    → now + c.min_delay s.controller ≤ later
    → All (λ a. a.target ≢ v.this) batch
    → world_of v c abi allowed metadata_hash
        (simulate_pod v c abi allowed metadata_hash now later signer contracts names info s)
      ≡ run_calls v batch s.world
unfolding simulate_pod schedule
simulate_pod-run_calls v c abi allowed metadata_hash now later signer contracts names info batch s
      built unknown proposes executes registers filled free waited others =
    let id = c.hash_operation_batch batch info.title in
    let (controller, (scheduled, ready, fresh, still)) =
      c.schedule_succeeds now signer batch info.title s.controller proposes unknown in
    rw
      (
        built,
        unknown,
        scheduled,
        register-ok v c abi allowed metadata_hash signer (metadata_hash id info.description)
            info.description s.registry registers filled free,
      )
      (execute-world v c abi allowed metadata_hash later signer batch info _ (still ∙ executes)
        (ready later waited) fresh others)
