-- ===== src/Governance/Duplicates.antt =====
-- A proposal with the same transaction twice.
use tribe.Base.{
  ◌+◌, ℕ, suc, ◌≡◌, sym, ap, ◌∙◌, false, Option, none, some, List, [], ◌∷◌, ◌++◌, Result, ok, err,
  >>=-eq-ok, ok-injective, ◌==◌, update, Bool-cases, inl, inr, arith,
}
use tribe.Governance.Timelock.{
  Timelock, Transaction, Governed, SelfCall, set_delay, set_pending_admin, accept_admin, receive,
  Chain, change_delay, propose_admin, take_admin, self_call, perform, call_data,
  execute_transaction,
}
use tribe.Governance.Delay.{execute_parts}
use tribe.Governance.Proposal.{queue_all, execute_all, simulate, or_failed}

module _ (v : Chain) where
  self_call-queue :
      (c : Option SelfCall) (t t' : Timelock)
      → self_call v c t ≡ ok t'
      → t'.queued_transactions ≡ t.queued_transactions
  unfolding self_call change_delay propose_admin take_admin
  self_call-queue none t t' h = cc
  self_call-queue (some (set_delay n)) t t' h = ground arith
  self_call-queue (some (set_pending_admin x)) t t' h = ground arith
  self_call-queue (some accept_admin) t t' h = ground arith
  self_call-queue (some receive) t t' h = ground arith

  perform-queue :
      (a : Transaction) (s s' : Governed v.World)
      → perform v a s ≡ ok s'
      → s'.timelock.queued_transactions ≡ s.timelock.queued_transactions
  unfolding perform
  perform-queue a s s' h = elim (Bool-cases (a.target == v.this)) [
    | inl itself ↦
        let (t, ht, h1) =
          >>=-eq-ok (self_call v (v.decode (call_data v a)) s.timelock) _ (rw itself at h) in
        ap (λ (x : Governed v.World). x.timelock.queued_transactions) (sym (ok-injective h1))
        ∙ self_call-queue (v.decode (call_data v a)) s.timelock t ht
    | inr other ↦
        let (w, hw, h1) =
          >>=-eq-ok (v.call a.target a.value (call_data v a) s.world) _ (rw other at h) in
        ap (λ (x : Governed v.World). x.timelock.queued_transactions) (sym (ok-injective h1))
  ]

  -- An execution takes its own hash off the queue, and no other.
  execute-queue :
      (now sender : ℕ) (a : Transaction) (eta : ℕ) (s s' : Governed v.World)
      → execute_transaction v now sender a eta s ≡ ok s'
      → s'.timelock.queued_transactions
        ≡ update s.timelock.queued_transactions (v.get_tx_hash a eta) false
  execute-queue now sender a eta s s' h =
      perform-queue a _ s' (execute_parts v now sender a eta s s' h).3

  or_failed-eq-ok :
      (r : Result (Governed v.World)) (s : Governed v.World) → or_failed v r ≡ ok s → r ≡ ok s
  or_failed-eq-ok (ok a) s h = h
  or_failed-eq-ok (err reason) s h = cc

  module _ (governor eta : ℕ) (clock : ℕ → ℕ) where
    not_queued :
        (i : ℕ) (before : List Transaction) (a : Transaction) (after : List Transaction)
        (s u : Governed v.World)
        → s.timelock.queued_transactions (v.get_tx_hash a eta) ≡ false
        → ¬ (execute_all v governor eta clock i (before ++ a ∷ after) s ≡ ok u)
    unfolding execute_all
    not_queued i [] a after s u gone h =
        let (s', h1, _) =
          >>=-eq-ok (or_failed v (execute_transaction v (clock i) governor a eta s)) _ h in
        let (queued, _, _, _) =
          execute_parts v (clock i) governor a eta s s' (or_failed-eq-ok _ s' h1) in
        cc
    not_queued i (b ∷ before) a after s u gone h =
        let (s', h1, rest) =
          >>=-eq-ok (or_failed v (execute_transaction v (clock i) governor b eta s)) _ h in
        let queue = execute-queue (clock i) governor b eta s s' (or_failed-eq-ok _ s' h1) in
        not_queued (suc i) before a after s' u
          (ap (λ q. q (v.get_tx_hash a eta)) queue ∙ ground (arith, gone)) rest

    twice :
        (i : ℕ) (before : List Transaction) (a : Transaction) (between after : List Transaction)
        (s u : Governed v.World)
        → ¬ (execute_all v governor eta clock i (before ++ a ∷ (between ++ a ∷ after)) s ≡ ok u)
    unfolding execute_all
    twice i [] a between after s u h =
        let (s', h1, rest) =
          >>=-eq-ok (or_failed v (execute_transaction v (clock i) governor a eta s)) _ h in
        let queue = execute-queue (clock i) governor a eta s s' (or_failed-eq-ok _ s' h1) in
        not_queued (suc i) between a after s' u
          (ap (λ q. q (v.get_tx_hash a eta)) queue ∙ ground arith) rest
    twice i (b ∷ before) a between after s u h =
        let (s', h1, rest) =
          >>=-eq-ok (or_failed v (execute_transaction v (clock i) governor b eta s)) _ h in
        twice (suc i) before a between after s' u rest

-- The simulation of a proposal that has the same transaction twice never succeeds: both are queued
-- under one hash, which the first execution takes off the queue.
pub simulate_duplicate :
    (v : Chain) (governor timestamp queued_at : ℕ) (clock : ℕ → ℕ) (before : List Transaction)
    (a : Transaction) (between after : List Transaction) (s u : Governed v.World)
    → ¬ (
        simulate v governor timestamp queued_at clock (before ++ a ∷ (between ++ a ∷ after)) s
        ≡ ok u)
unfolding simulate
simulate_duplicate v governor timestamp queued_at clock before a between after s u h =
    let eta = s.timelock.delay + timestamp + 50 in
    let (t, _, rest) =
      >>=-eq-ok
        (queue_all v governor queued_at eta (before ++ a ∷ (between ++ a ∷ after)) s.timelock) _
        h in
    twice v governor eta clock 0 before a between after (record { timelock = t; world = s.world }) u
      rest
