-- ===== src/Governance/Timelock.antt =====
-- contracts/dao/timelock/Timelock.sol. The hash of a transaction, the selector of a signature, and
-- the contracts that are called are parameters. A transaction to the timelock itself is one of its
-- own functions.
use tribe.Base.{
  ℕ, ◌*◌, Bool, true, false, not, String, ◌++◌, Result, ok, err, ◌>>=◌, ◌>>◌, require, leb, ◌==◌,
  str_eq, if◌then◌else◌, Option, none, some, update, checked_add,
}
use tribe.Evm.{Bytes}

pub record Timelock : Type 0 where
  pub admin : ℕ
  pub pending_admin : ℕ
  pub delay : ℕ
  pub minimum_delay : ℕ
  pub queued_transactions : ℕ → Bool

abbrev pub grace_period : ℕ
grace_period = 14 * 86400

abbrev pub maximum_delay : ℕ
maximum_delay = 30 * 86400

pub record Transaction : Type 0 where
  pub target : ℕ
  pub value : ℕ
  pub signature : String
  pub calldata : Bytes

pub record Governed (W : Type 0) : Type 0 where
  pub timelock : Timelock
  pub world : W

-- What a call of the timelock by itself decodes to: `receive` stands for whatever changes nothing.
-- The functions that require the admin are left out, since an executing admin is another account.
pub data SelfCall : Type 0 where
  set_delay : ℕ → SelfCall
  set_pending_admin : ℕ → SelfCall
  accept_admin : SelfCall
  receive : SelfCall

-- The chain around the timelock.
pub record Chain : Type 1 where
  pub World : Type 0
  -- The timelock's own address.
  pub this : ℕ
  -- `getTxHash`, with the transaction's time
  pub get_tx_hash : Transaction → ℕ → ℕ
  -- `bytes4(keccak256(bytes(signature)))`
  pub selector : String → Bytes
  pub decode : Bytes → Option SelfCall
  -- `target.call{value: value}(callData)`, for a target that is another contract and does not call
  -- the timelock back
  pub call : ℕ → ℕ → Bytes → World → Result World

unfoldable pub constructor : (admin delay minimum : ℕ) → Result Timelock
constructor admin delay minimum = do
  require (leb minimum delay) "Timelock: Delay must exceed minimum delay."
  require (leb delay maximum_delay) "Timelock: Delay must not exceed maximum delay."
  require (not (admin == 0)) "Timelock: Admin must not be 0 address"
  ok (record {
    admin = admin;
    pending_admin = 0;
    delay = delay;
    minimum_delay = minimum;
    queued_transactions = λ h. false;
  })

module _ (v : Chain) where
  unfoldable pub change_delay : ℕ → ℕ → Timelock → Result Timelock
  change_delay sender n t = do
    require (sender == v.this) "Timelock: Call must come from Timelock."
    require (leb t.minimum_delay n) "Timelock: Delay must exceed minimum delay."
    require (leb n maximum_delay) "Timelock: Delay must not exceed maximum delay."
    ok (record t { delay = n })

  unfoldable pub take_admin : ℕ → Timelock → Result Timelock
  take_admin sender t = do
    require (sender == t.pending_admin) "Timelock: Call must come from pendingAdmin."
    ok (record t { admin = sender; pending_admin = 0 })

  unfoldable pub propose_admin : ℕ → ℕ → Timelock → Result Timelock
  propose_admin sender x t = do
    require (sender == v.this) "Timelock: Call must come from Timelock."
    ok (record t { pending_admin = x })

  unfoldable pub queue_transaction : ℕ → ℕ → Transaction → ℕ → Timelock → Result Timelock
  queue_transaction now sender a eta t = do
    require (sender == t.admin) "Timelock: Call must come from admin."
    earliest ← checked_add now t.delay
    require (leb earliest eta) "Timelock: Estimated execution block must satisfy delay."
    ok (record t { queued_transactions = update t.queued_transactions (v.get_tx_hash a eta) true })

  unfoldable pub cancel_transaction : ℕ → Transaction → ℕ → Timelock → Result Timelock
  cancel_transaction sender a eta t = do
    require (sender == t.admin) "Timelock: Call must come from admin."
    ok (record t { queued_transactions = update t.queued_transactions (v.get_tx_hash a eta) false })

  unfoldable pub call_data : Transaction → Bytes
  call_data a = if str_eq a.signature "" then a.calldata else v.selector a.signature ++ a.calldata

  unfoldable pub self_call : Option SelfCall → Timelock → Result Timelock
  self_call none t = err "Timelock: Transaction execution reverted."
  self_call (some (set_delay n)) t = change_delay v.this n t
  self_call (some (set_pending_admin x)) t = propose_admin v.this x t
  self_call (some accept_admin) t = take_admin v.this t
  self_call (some receive) t = ok t

  -- The low-level call at the end of an execution.
  unfoldable pub perform : Transaction → Governed v.World → Result (Governed v.World)
  perform a s =
      if a.target == v.this
      then (self_call (v.decode (call_data a)) s.timelock >>= λ t.
          ok (record { timelock = t; world = s.world }))
      else (v.call a.target a.value (call_data a) s.world >>= λ w.
          ok (record { timelock = s.timelock; world = w }))

  unfoldable pub execute_transaction :
      ℕ → ℕ → Transaction → ℕ → Governed v.World → Result (Governed v.World)
  execute_transaction now sender a eta s = do
    require (sender == s.timelock.admin) "Timelock: Call must come from admin."
    require (s.timelock.queued_transactions (v.get_tx_hash a eta))
        "Timelock: Transaction hasn't been queued."
    require (leb eta now) "Timelock: Transaction hasn't surpassed time lock."
    last ← checked_add eta grace_period
    require (leb now last) "Timelock: Transaction is stale."
    perform a (record s {
      timelock = record s.timelock {
        queued_transactions = update s.timelock.queued_transactions (v.get_tx_hash a eta) false;
      };
    })
