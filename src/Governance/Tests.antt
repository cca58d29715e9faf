-- ===== src/Governance/Tests.antt =====
-- A timelock with two transactions, and the theorems about it applied there.
use tribe.Base.{
  ℕ, suc, ◌+◌, ◌%◌, ◌<◌, ◌≤◌, ◌≡◌, ◌≢◌, refl, Bool, true, false, ◌&&◌, none, some, String, [], ◌∷◌,
  ◌++◌, ok, get_elem?, ◌==◌, str_eq, update, if◌then◌else◌, arith, leb→le, sym, ok-injective,
  checked_add, uint256_mod, ==_iff, str_eq_iff, Bool-cases, inl, inr, All,
}
use tribe.Evm.{Bytes}
use tribe.Js.{get}
use tribe.Types.{NamedAddresses, TemplatedProposalCommand, TemplatedProposalDescription}
use tribe.Governance.Timelock.{
  Timelock, Transaction, Governed, Chain, constructor, queue_transaction, execute_transaction,
  perform, call_data, grace_period, maximum_delay,
}
use tribe.Governance.Proposal.{
  Abi, Plugin, construct_proposal, add_commands, simulate, simulate_debug,
}
use tribe.Governance.Delay.{Entry, History, here, queues, execute-waited, History-delay}
use tribe.Governance.Simulate.{run_calls, world_of, simulate-run_calls}
use tribe.Governance.Duplicates.{simulate_duplicate}
use tribe.Governance.Debug.{IsKnown, simulate_debug-run_calls}

abbrev is_empty : Bytes → Bool
is_empty [] = true
is_empty (b ∷ bytes) = false

abbrev pay : Transaction
pay = record { target = 7; value = 3; signature = "pay()"; calldata = [] }

abbrev drip : Transaction
drip = record { target = 8; value = 0; signature = "drip()"; calldata = [] }

-- Whether a transaction is `pay`, at the time 1200.
abbrev is_pay : Transaction → ℕ → Bool
is_pay b x =
    (b.target == 7)
    && ((b.value == 3) && (str_eq b.signature "pay()" && (is_empty b.calldata && (x == 1200))))

-- A world that counts what was paid.
abbrev chain : Chain
chain = record {
  World = ℕ;
  this = 1;
  get_tx_hash = λ b x. if is_pay b x then 1 else b.target + 2;
  selector = λ s. [];
  decode = λ bytes. none;
  call = λ target value bytes w. ok (w + value);
}

abbrev made : Timelock
made = record {
  admin = 5;
  pending_admin = 0;
  delay = 100;
  minimum_delay = 50;
  queued_transactions = λ h. false;
}

abbrev queued : Timelock
queued = record made { queued_transactions = update (λ h. false) 1 true }

abbrev entry : Entry
entry = record { transaction = pay; eta = 1200; queued_at = 1000 }

constructor_runs : constructor 5 100 50 ≡ ok made
unfolding constructor
constructor_runs = refl

queue_runs : queue_transaction chain 1000 5 pay 1200 made ≡ ok queued
unfolding queue_transaction checked_add uint256_mod
queue_runs = refl

abbrev paid : Governed ℕ
paid = record {
  timelock = record queued { queued_transactions = update queued.queued_transactions 1 false };
  world = 3;
}

execute_runs :
    execute_transaction chain 1300 5 pay 1200 (record { timelock = queued; world = 0 }) ≡ ok paid
unfolding execute_transaction perform call_data checked_add uint256_mod
execute_runs = refl

past :
    History chain
      (record { timelock = made; world = 0 })
      (entry ∷ [])
      (record { timelock = queued; world = 0 })
past = queues here 1000 5 pay 1200 queued queue_runs

both : (b c : Bool) → b && c ≡ true → (b ≡ true) × (c ≡ true)
both true c h = (refl, h)
both false c h = cc

empty : (bytes : Bytes) → is_empty bytes ≡ true → bytes ≡ []
empty [] h = refl
empty (b ∷ bytes) h = cc

same :
    (target value : ℕ) (signature : String) (calldata : Bytes) (x : ℕ)
    → is_pay
        (record { target = target; value = value; signature = signature; calldata = calldata })
        x
      ≡ true
    → (target ≡ 7) × (value ≡ 3) × (signature ≡ "pay()") × (calldata ≡ []) × (x ≡ 1200)
same target value signature calldata x h =
    let (t, h1) = both (target == 7) _ h in
    let (v, h2) = both (value == 3) _ h1 in
    let (s, h3) = both (str_eq signature "pay()") _ h2 in
    let (c, e) = both (is_empty calldata) _ h3 in
    (
      (==_iff target 7).0 t,
      (==_iff value 3).0 v,
      (str_eq_iff signature "pay()").0 s,
      empty calldata c,
      (==_iff x 1200).0 e,
    )

all_same :
    (b : Transaction)
    → b.target ≡ 7
    → b.value ≡ 3
    → b.signature ≡ "pay()"
    → b.calldata ≡ []
    → b ≡ pay
all_same b t v s c = rw (t, v, s, c) refl

apart :
    (b : Transaction) (x : ℕ)
    → chain.get_tx_hash b x ≡ chain.get_tx_hash pay 1200
    → (b ≡ pay) × (x ≡ 1200)
apart b x h = elim (Bool-cases (is_pay b x)) [
  | inl match ↦
      let (t, v, s, c, e) = same b.target b.value b.signature b.calldata x match in
      (all_same b t v s c, e)
  | inr other ↦ absurd (omega (arith, rw other at h))
]

execute-waited_example :
    (i : ℕ) × (e : Entry) × ((get_elem? (entry ∷ []) i ≡ some e)
      × (e.transaction ≡ pay)
      × (e.eta ≡ 1200)
      × (e.queued_at + 50 ≤ 1200)
      × (1200 ≤ 1300)
      × (1300 ≤ 1200 + grace_period))
execute-waited_example =
    execute-waited chain 5 100 50 0 made 1300 5 pay 1200 apart constructor_runs past execute_runs

History-delay_example : (50 ≤ 100) × (100 ≤ maximum_delay)
History-delay_example = History-delay chain 5 100 50 0 made constructor_runs past

in_range : 100 + 1050 + 50 + grace_period < uint256_mod
unfolding uint256_mod
in_range = leb→le (suc (100 + 1050 + 50 + grace_period)) uint256_mod refl

distinct_hashes : All (λ (h : ℕ). 1 ≢ h) (10 ∷ [])
distinct_hashes = (λ e. absurd (omega (arith, e)), tt)

other_targets : All (λ a. a.target ≢ 1) (pay ∷ drip ∷ [])
other_targets = (λ e. absurd (omega (arith, e)), (λ e. absurd (omega (arith, e)), tt))

abbrev started : Governed ℕ
started = record { timelock = made; world = 0 }

simulate-run_calls_example :
    world_of chain (simulate chain 5 1050 1100 (λ j. 1200 + j % 2) (pay ∷ drip ∷ []) started)
    ≡ run_calls chain (pay ∷ drip ∷ []) 0
simulate-run_calls_example =
    simulate-run_calls chain 5 1050 1100 (λ j. 1200 + j % 2) (pay ∷ drip ∷ []) started refl
      (omega arith) (λ j. (omega arith, omega arith)) in_range (distinct_hashes, (tt, tt))
      other_targets

simulate_duplicate_example : ¬ (
    simulate chain 5 1050 1100 (λ j. 1200) ([] ++ pay ∷ ((drip ∷ []) ++ pay ∷ [])) started
    ≡ ok started)
simulate_duplicate_example =
    simulate_duplicate chain 5 1050 1100 (λ j. 1200) [] pay (drip ∷ []) [] started started

abbrev abi : Abi
abi = record {
  to_address = λ s. if str_eq s "0x8" then 8 else 7;
  to_uint256 = λ s. if str_eq s "3" then 3 else 0;
  encode = λ method arguments. ok [];
}

abbrev plugin : Plugin abi
plugin = record {
  add_contract_action = λ target method arguments value so_far.
      ok (
        so_far
        ++ record { target = target; value = value; signature = method; calldata = [] } ∷ []);
  add_contract_action-eq-ok =
      λ target method arguments value so_far all h. ([], (refl, sym (ok-injective h)));
}

abbrev addresses : NamedAddresses
addresses = ("payer", "0x7") ∷ ("dripper", "0x8") ∷ []

abbrev call_of : String → String → String → TemplatedProposalCommand
call_of target values method = record {
  target = target;
  values = values;
  method = method;
  arguments = λ a. [];
  description = "";
}

abbrev info : TemplatedProposalDescription
info = record {
  title = "Pay and drip";
  commands = call_of "payer" "3" "pay()" ∷ call_of "dripper" "0" "drip()" ∷ [];
  description = "";
}

constructs : construct_proposal abi plugin addresses addresses info ≡ ok (pay ∷ drip ∷ [])
unfolding construct_proposal add_commands get
constructs = refl

known : All (IsKnown chain abi plugin addresses addresses) info.commands
unfolding get
known = (
  record {
    found = "0x7";
    contract = refl;
    same = refl;
    filled = refl;
    named = refl;
    small = omega arith;
    other = λ e. absurd (omega (arith, e));
  },
  (
    record {
      found = "0x8";
      contract = refl;
      same = refl;
      filled = refl;
      named = refl;
      small = omega arith;
      other = λ e. absurd (omega (arith, e));
    },
    tt,
  ),
)

simulate_debug-run_calls_example :
    world_of chain (simulate_debug chain abi addresses addresses info.commands started)
    ≡ run_calls chain (pay ∷ drip ∷ []) 0
simulate_debug-run_calls_example =
    simulate_debug-run_calls chain abi plugin addresses addresses info (pay ∷ drip ∷ []) started
      known constructs
