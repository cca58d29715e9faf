-- ===== src/Governance/PodTests.antt =====
-- A pod with a minimum delay of 5, and a proposal of one command on it.
use tribe.Base.{
  ℕ, ◌+◌, ◌≤◌, ◌≡◌, refl, Bool, true, false, not, ◌&&◌, Option, none, some, String, List, [], ◌∷◌,
  length, Result, ok, err, ltb, leb, ◌==◌, update, if◌then◌else◌, arith,
}
use tribe.Js.{get}
use tribe.Types.{NamedAddresses, TemplatedProposalDescription}
use tribe.Governance.Timelock.{Transaction, Chain}
use tribe.Governance.Proposal.{Abi}
use tribe.Governance.Simulate.{run_calls}
use tribe.Governance.Pod.{Controller, outside_of, Pod, pod_calls, simulate_pod}
use tribe.Governance.PodRuns.{world_of, simulate_pod-run_calls}

abbrev chain : Chain
chain = record {
  World = ℕ;
  this = 1;
  get_tx_hash = λ b x. x;
  selector = λ s. 1 ∷ [];
  decode = λ bytes. none;
  call = λ target value bytes w. ok (w + value);
}

-- What the calls leave, as a result.
abbrev as_result : Option ℕ → Result ((ℕ → ℕ) × ℕ)
as_result none = err "TimelockController: underlying transaction reverted"
as_result (some w) = ok (λ h. 1, w)

abbrev is_ready : ℕ → (ℕ → ℕ) → ℕ → Bool
is_ready now s h = ltb 1 (s h) && leb (s h) (now + 2)

abbrev execute_batch : ℕ → ℕ → List Transaction → String → (ℕ → ℕ) → ℕ → Result ((ℕ → ℕ) × ℕ)
execute_batch now caller batch salt s w =
    if is_ready now s (length batch)
    then as_result (run_calls chain batch w)
    else err "TimelockController: operation is not ready"

outside-as_result : (o : Option ℕ) → outside_of (as_result o) ≡ o
outside-as_result none = refl
outside-as_result (some w) = refl

execute-run :
    (now caller : ℕ) (batch : List Transaction) (salt : String) (s : ℕ → ℕ) (w : ℕ)
    → is_ready now s (length batch) ≡ true
    → outside_of (execute_batch now caller batch salt s w) ≡ run_calls chain batch w
execute-run now caller batch salt s w ready = rw ready (outside-as_result (run_calls chain batch w))

ready :
    (now later h : ℕ) (s : ℕ → ℕ)
    → now + 5 ≤ later
    → is_ready later (update s h (now + 5 + 2)) h ≡ true
ready now later h s waited = ground (arith, waited)

not_done : (now h : ℕ) (s : ℕ → ℕ) → update s h (now + 5 + 2) h == 1 ≡ false
not_done now h s = ground arith

-- The time at which a batch was ready first, two more; 1 when it is done.
abbrev controller : Controller chain
controller = record {
  State = ℕ → ℕ;
  min_delay = λ s. 5;
  may_propose = λ s a. true;
  may_execute = λ s a. true;
  hash_operation_batch = λ batch salt. length batch;
  is_operation = λ s h. not (s h == 0);
  is_operation_ready = is_ready;
  is_operation_done = λ s h. s h == 1;
  schedule_batch = λ now caller batch salt delay s. ok (update s (length batch) (now + delay + 2));
  execute_batch = execute_batch;
  schedule_succeeds = λ now caller batch salt s may fresh. (
    update s (length batch) (now + 5 + 2),
    (
      refl,
      λ later waited. ready now later (length batch) s waited,
      not_done now (length batch) s,
      refl,
    ),
  );
  execute-run =
      λ now caller batch salt s w may ready others. execute-run now caller batch salt s w ready;
}

abbrev abi : Abi
abi = record { to_address = λ s. 7; to_uint256 = λ s. 3; encode = λ method arguments. ok [] }

abbrev names : NamedAddresses
names = ("payer", "0x7") ∷ []

abbrev info : TemplatedProposalDescription
info = record {
  title = "Pay";
  commands =
      record {
        target = "payer";
        values = "3";
        method = "pay()";
        arguments = λ a. [];
        description = "";
      }
      ∷ [];
  description = "A payment";
}

abbrev batch : List Transaction
batch = record { target = 7; value = 3; signature = ""; calldata = 1 ∷ [] } ∷ []

built : pod_calls chain controller abi names names info.commands ≡ ok batch
unfolding pod_calls get
built = refl

abbrev pod : Pod chain controller abi
pod = record { controller = λ h. 0; registry = record { registration = λ h. false }; world = 10 }

simulate_pod-run_calls_example :
    world_of chain controller abi
      (λ a. true)
      (λ h s. h)
      (simulate_pod chain controller abi (λ a. true) (λ h s. h) 100 105 5 names names info pod)
    ≡ run_calls chain batch 10
simulate_pod-run_calls_example =
    simulate_pod-run_calls chain controller abi (λ a. true) (λ h s. h) 100 105 5 names names info
      batch pod built refl refl refl refl refl refl (omega arith)
      (λ e. absurd (omega (arith, e)), tt)
