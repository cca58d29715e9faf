-- ===== src/Governance/Simulate.antt =====
-- What the simulation of a proposal does to the world.
use tribe.Base.{
  ℕ, suc, ◌+◌, ◌≤◌, ◌<◌, ◌≡◌, ◌≢◌, refl, ◌∙◌, Bool, true, false, Option, none, some, List, [], ◌∷◌,
  map, Result, ok, err, ◌>>=◌, >>=-ok, update, checked_add, uint256_mod, All, Distinct, arith,
}
use tribe.Governance.Timelock.{
  Timelock, Transaction, Governed, Chain, grace_period, queue_transaction, execute_transaction,
  perform, call_data,
}
use tribe.Governance.Proposal.{queue_all, execute_all, simulate, or_failed}

-- The specification: the transactions of a timelock are calls of other contracts, one after another.
module _ (v : Chain) where
  abbrev pub run_calls : List Transaction → v.World → Option v.World
  run_calls [] w = some w
  run_calls (a ∷ actions) w = elim (v.call a.target a.value (call_data v a) w) [
    | ok w' ↦ run_calls actions w'
    | err reason ↦ none
  ]

  abbrev pub world_of : Result (Governed v.World) → Option v.World
  world_of (ok s) = some s.world
  world_of (err reason) = none

  -- A transaction to another contract is a call of it.
  pub perform-call :
      (a : Transaction) (s : Governed v.World)
      → a.target ≢ v.this
      → perform v a s ≡ (
          v.call a.target a.value (call_data v a) s.world >>= λ w.
          ok (record { timelock = s.timelock; world = w }))
  unfolding perform
  perform-call a s other = ground (arith, other)

module _ (v : Chain) (governor eta : ℕ) where
  abbrev hash : Transaction → ℕ
  hash a = v.get_tx_hash a eta

  -- The queue after `actions` are queued.
  abbrev mark : List Transaction → (ℕ → Bool) → ℕ → Bool
  mark [] q = q
  mark (a ∷ actions) q = mark actions (update q (hash a) true)

  mark_keeps :
      (actions : List Transaction) (q : ℕ → Bool) (h : ℕ) → q h ≡ true → mark actions q h ≡ true
  mark_keeps [] q h e = e
  mark_keeps (a ∷ actions) q h e = mark_keeps actions (update q (hash a) true) h (ground (arith, e))

  marked :
      (actions : List Transaction) (q : ℕ → Bool)
      → All (λ a. mark actions q (hash a) ≡ true) actions
  marked [] q = tt
  marked (a ∷ actions) q = (
    mark_keeps actions (update q (hash a) true) (hash a) (ground arith),
    marked actions (update q (hash a) true),
  )

  queue-ok :
      (now : ℕ) (a : Transaction) (t : Timelock)
      → t.admin ≡ governor
      → now + t.delay ≤ eta
      → eta < uint256_mod
      → queue_transaction v now governor a eta t
        ≡ ok (record t { queued_transactions = update t.queued_transactions (hash a) true })
  unfolding queue_transaction checked_add
  queue-ok now a t admin late bound = ground arith

  queue_all-ok :
      (now : ℕ) (actions : List Transaction) (t : Timelock)
      → t.admin ≡ governor
      → now + t.delay ≤ eta
      → eta < uint256_mod
      → queue_all v governor now eta actions t
        ≡ ok (record t { queued_transactions = mark actions t.queued_transactions })
  unfolding queue_all
  queue_all-ok now [] t admin late bound = refl
  queue_all-ok now (a ∷ actions) t admin late bound =
      let t' : Timelock = record t {
        queued_transactions = update t.queued_transactions (hash a) true;
      } in
      >>=-ok (queue_transaction v now governor a eta t) _ t' (queue-ok now a t admin late bound)
        (queue_all-ok now actions t' admin late bound)

  -- The state after the checks of an execution.
  abbrev unqueued : Transaction → Governed v.World → Governed v.World
  unqueued a s = record s {
    timelock = record s.timelock {
      queued_transactions = update s.timelock.queued_transactions (hash a) false;
    };
  }

  execute-ready :
      (now : ℕ) (a : Transaction) (s : Governed v.World)
      → s.timelock.admin ≡ governor
      → s.timelock.queued_transactions (hash a) ≡ true
      → eta ≤ now
      → now ≤ eta + grace_period
      → eta + grace_period < uint256_mod
      → execute_transaction v now governor a eta s ≡ perform v a (unqueued a s)
  unfolding execute_transaction checked_add
  execute-ready now a s admin queued late fresh bound = ground arith

  still_queued :
      (a : Transaction) (actions : List Transaction) (q : ℕ → Bool)
      → All (λ h. hash a ≢ h) (map hash actions)
      → All (λ b. q (hash b) ≡ true) actions
      → All (λ b. update q (hash a) false (hash b) ≡ true) actions
  still_queued a [] q d h = tt
  still_queued a (b ∷ actions) q d h = (ground (arith, d.0, h.0), still_queued a actions q d.1 h.1)

  module _ (clock : ℕ → ℕ) where
    step-world :
        (i : ℕ) (actions : List Transaction) (t : Timelock) (r : Result v.World)
        → ((w : v.World)
            → world_of v
                (execute_all v governor eta clock i actions (record { timelock = t; world = w }))
              ≡ run_calls v actions w)
        → world_of v (
            or_failed v (r >>= (λ w. ok (record { timelock = t; world = w })))
            >>= execute_all v governor eta clock i actions)
          ≡ elim r [ ok w ↦ run_calls v actions w | err reason ↦ none ]
    step-world i actions t (ok w) k = k w
    step-world i actions t (err reason) k = refl

    execute_all-world :
        (i : ℕ) (actions : List Transaction) (s : Governed v.World)
        → ((j : ℕ) → (eta ≤ clock j) × (clock j ≤ eta + grace_period))
        → eta + grace_period < uint256_mod
        → s.timelock.admin ≡ governor
        → All (λ a. s.timelock.queued_transactions (hash a) ≡ true) actions
        → Distinct (map hash actions)
        → All (λ a. a.target ≢ v.this) actions
        → world_of v (execute_all v governor eta clock i actions s) ≡ run_calls v actions s.world
    unfolding execute_all
    execute_all-world i [] s times bound admin queued distinct others = refl
    execute_all-world i (a ∷ actions) s times bound admin queued distinct others =
        let t = (unqueued a s).timelock in
        let ready =
          execute-ready (clock i) a s admin queued.0 (times i).0 (times i).1 bound
          ∙ perform-call v a (unqueued a s) others.0 in
        rw ready (
          step-world (suc i) actions t (v.call a.target a.value (call_data v a) s.world) (λ w.
            execute_all-world (suc i) actions (record { timelock = t; world = w }) times bound admin
              (still_queued a actions s.timelock.queued_transactions distinct.0 queued.1) distinct.1
              others.1))

-- The simulation of a proposal, with the timelock's admin as its governor and over transactions of
-- different hashes whose targets are other contracts, ends as the calls of these contracts do, made
-- directly one after another: it fails where one of them fails, and otherwise leaves the same world.
-- The block of the queueing is at most 50 seconds after the latest one, the executions run within 14
-- days from the time that the simulation computes, and no time leaves 256 bits.
pub simulate-run_calls :
    (v : Chain) (governor timestamp queued_at : ℕ) (clock : ℕ → ℕ) (actions : List Transaction)
    (s : Governed v.World)
    → s.timelock.admin ≡ governor
    → queued_at ≤ timestamp + 50
    → ((j : ℕ)
        → (s.timelock.delay + timestamp + 50 ≤ clock j)
          × (clock j ≤ s.timelock.delay + timestamp + 50 + grace_period))
    → s.timelock.delay + timestamp + 50 + grace_period < uint256_mod
    → Distinct (map (λ a. v.get_tx_hash a (s.timelock.delay + timestamp + 50)) actions)
    → All (λ a. a.target ≢ v.this) actions
    → world_of v (simulate v governor timestamp queued_at clock actions s)
      ≡ run_calls v actions s.world
unfolding simulate
simulate-run_calls v governor timestamp queued_at clock actions s admin soon times bound distinct
      others =
    let eta = s.timelock.delay + timestamp + 50 in
    rw
      (queue_all-ok v governor eta queued_at actions s.timelock admin (ground arith) (ground arith))
      (execute_all-world v governor eta clock 0 actions _ times bound admin
        (marked v governor eta actions s.timelock.queued_transactions) distinct others)
