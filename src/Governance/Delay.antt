-- ===== src/Governance/Delay.antt =====
-- Nothing leaves the timelock before its time.
use tribe.Base.{
  ℕ, suc, ◌+◌, ◌≤◌, ◌≡◌, refl, subst, ◌∙◌, true, false, List, [], ◌∷◌, some, none, Option, ok,
  >>=-eq-ok, require-then-eq-ok, ok-injective, get_elem?, leb, leb→le, ◌==◌, ==_iff, update,
  checked_add, checked_add-eq, Bool-cases, inl, inr, arith,
}
use tribe.Governance.Timelock.{
  Timelock, Transaction, Governed, SelfCall, set_delay, set_pending_admin, accept_admin, receive,
  Chain, constructor, maximum_delay, grace_period, change_delay, take_admin, propose_admin,
  queue_transaction, cancel_transaction, self_call, perform, execute_transaction, call_data,
}

-- A transaction as it was queued: with its time, at a block's time.
pub record Entry : Type 0 where
  pub transaction : Transaction
  pub eta : ℕ
  pub queued_at : ℕ

module _ (v : Chain) where
  -- The calls of a timelock that returned, with what was queued, the last first. Between two of them
  -- anything may happen to the world.
  pub data History (s : Governed v.World) : List Entry → Governed v.World → Type 0 where
    here : History s [] s
    queues :
        {log : List Entry} {u : Governed v.World}
        → History s log u
        → (now sender : ℕ) (a : Transaction) (eta : ℕ) (t : Timelock)
        → queue_transaction v now sender a eta u.timelock ≡ ok t
        → History s
            (record { transaction = a; eta = eta; queued_at = now } ∷ log)
            (record { timelock = t; world = u.world })
    cancels :
        {log : List Entry} {u : Governed v.World}
        → History s log u
        → (sender : ℕ) (a : Transaction) (eta : ℕ) (t : Timelock)
        → cancel_transaction v sender a eta u.timelock ≡ ok t
        → History s log (record { timelock = t; world = u.world })
    executes :
        {log : List Entry} {u u' : Governed v.World}
        → History s log u
        → (now sender : ℕ) (a : Transaction) (eta : ℕ)
        → execute_transaction v now sender a eta u ≡ ok u'
        → History s log u'
    takes_admin :
        {log : List Entry} {u : Governed v.World}
        → History s log u
        → (sender : ℕ) (t : Timelock) → take_admin v sender u.timelock ≡ ok t
        → History s log (record { timelock = t; world = u.world })
    others :
        {log : List Entry} {u : Governed v.World}
        → History s log u
        → (w : v.World) → History s log (record u { world = w })

  -- What every state has: a delay within its bounds, and for every queued hash an entry of the log
  -- that waits at least the minimum delay.
  pub record IsPatient (minimum : ℕ) (log : List Entry) (t : Timelock) : Type 0 where
    pub same_minimum : t.minimum_delay ≡ minimum
    pub least : minimum ≤ t.delay
    pub most : t.delay ≤ maximum_delay
    pub logged :
        (h : ℕ)
        → t.queued_transactions h ≡ true
        → (i : ℕ) × (e : Entry) × ((get_elem? log i ≡ some e)
            × (v.get_tx_hash e.transaction e.eta ≡ h)
            × (e.queued_at + minimum ≤ e.eta))

  -- A step that changes neither bound nor delay and queues nothing keeps all of this.
  still-IsPatient :
      (minimum : ℕ) (log : List Entry) (t t' : Timelock)
      → IsPatient minimum log t
      → t'.minimum_delay ≡ t.minimum_delay
      → t'.delay ≡ t.delay
      → ((h : ℕ) → t'.queued_transactions h ≡ true → t.queued_transactions h ≡ true)
      → IsPatient minimum log t'
  still-IsPatient minimum log t t' i m d q = record {
    same_minimum = m ∙ i.same_minimum;
    least = omega (arith, i.least, d);
    most = omega (arith, i.most, d);
    logged = λ h x. i.logged h (q h x);
  }

  self_call-keeps :
      (c : Option SelfCall) (minimum : ℕ) (log : List Entry) (t t' : Timelock)
      → IsPatient minimum log t
      → self_call v c t ≡ ok t'
      → IsPatient minimum log t'
  unfolding self_call change_delay propose_admin take_admin
  self_call-keeps none minimum log t t' i h = cc
  self_call-keeps (some (set_delay n)) minimum log t t' i h = record {
    same_minimum = ground (arith, i.same_minimum);
    least = ground (arith, i.same_minimum);
    most = ground arith;
    logged = λ x q. i.logged x (ground (arith, q));
  }
  self_call-keeps (some (set_pending_admin x)) minimum log t t' i h =
      still-IsPatient minimum log t t' i (ground arith) (ground arith) (λ y q. ground (arith, q))
  self_call-keeps (some accept_admin) minimum log t t' i h =
      still-IsPatient minimum log t t' i (ground arith) (ground arith) (λ y q. ground (arith, q))
  self_call-keeps (some receive) minimum log t t' i h =
      still-IsPatient minimum log t t' i (ground arith) (ground arith) (λ y q. ground (arith, q))

  take_admin-keeps :
      (sender minimum : ℕ) (log : List Entry) (t t' : Timelock)
      → IsPatient minimum log t
      → take_admin v sender t ≡ ok t'
      → IsPatient minimum log t'
  unfolding take_admin
  take_admin-keeps sender minimum log t t' i h =
      still-IsPatient minimum log t t' i (ground arith) (ground arith) (λ y q. ground (arith, q))

  queue-keeps :
      (now sender : ℕ) (a : Transaction) (eta minimum : ℕ) (log : List Entry) (t t' : Timelock)
      → IsPatient minimum log t
      → queue_transaction v now sender a eta t ≡ ok t'
      → IsPatient minimum (record { transaction = a; eta = eta; queued_at = now } ∷ log) t'
  unfolding queue_transaction
  queue-keeps now sender a eta minimum log t t' i h =
      let (_, h1) = require-then-eq-ok (sender == t.admin) _ _ h in
      let (earliest, he, h2) = >>=-eq-ok (checked_add now t.delay) _ h1 in
      let (late, h3) = require-then-eq-ok (leb earliest eta) _ _ h2 in
      let waits = checked_add-eq now t.delay earliest he in
      let fresh : Entry = record { transaction = a; eta = eta; queued_at = now } in
      let new = ok-injective h3 in
      subst (IsPatient minimum (fresh ∷ log)) new (record {
        same_minimum = i.same_minimum;
        least = i.least;
        most = i.most;
        logged = λ x q. elim (Bool-cases (v.get_tx_hash a eta == x)) [
          | inl same ↦ (
            0,
            fresh,
            (
              refl,
              (==_iff (v.get_tx_hash a eta) x).0 same,
              ground (arith, waits, leb→le earliest eta late, i.least),
            ),
          )
          | inr other ↦ let (k, e, found) = i.logged x (rw other at q) in (suc k, e, found)
        ];
      })

  cancel-keeps :
      (sender : ℕ) (a : Transaction) (eta minimum : ℕ) (log : List Entry) (t t' : Timelock)
      → IsPatient minimum log t
      → cancel_transaction v sender a eta t ≡ ok t'
      → IsPatient minimum log t'
  unfolding cancel_transaction
  cancel-keeps sender a eta minimum log t t' i h =
      still-IsPatient minimum log t t' i (ground arith) (ground arith) (λ y q. ground (arith, q))

  perform-keeps :
      (a : Transaction) (minimum : ℕ) (log : List Entry) (s s' : Governed v.World)
      → IsPatient minimum log s.timelock
      → perform v a s ≡ ok s'
      → IsPatient minimum log s'.timelock
  unfolding perform
  perform-keeps a minimum log s s' i h = elim (Bool-cases (a.target == v.this)) [
    | inl itself ↦
        let (t, ht, h1) =
          >>=-eq-ok (self_call v (v.decode (call_data v a)) s.timelock) _ (rw itself at h) in
        subst (λ x. IsPatient minimum log x.timelock) (ok-injective h1)
          (self_call-keeps (v.decode (call_data v a)) minimum log s.timelock t i ht)
    | inr other ↦
        let (w, hw, h1) =
          >>=-eq-ok (v.call a.target a.value (call_data v a) s.world) _ (rw other at h) in
        subst (λ x. IsPatient minimum log x.timelock) (ok-injective h1) i
  ]

  -- What an execution that returns has checked, and the call it ends in.
  pub execute_parts :
      (now sender : ℕ) (a : Transaction) (eta : ℕ) (s s' : Governed v.World)
      → execute_transaction v now sender a eta s ≡ ok s'
      → (s.timelock.queued_transactions (v.get_tx_hash a eta) ≡ true)
        × (eta ≤ now)
        × (now ≤ eta + grace_period)
        × (perform v a (record s {
          timelock = record s.timelock {
            queued_transactions = update s.timelock.queued_transactions (v.get_tx_hash a eta) false;
          };
        })
            ≡ ok s')
  unfolding execute_transaction
  execute_parts now sender a eta s s' h =
      let (_, h1) = require-then-eq-ok (sender == s.timelock.admin) _ _ h in
      let (queued, h2) =
        require-then-eq-ok (s.timelock.queued_transactions (v.get_tx_hash a eta)) _ _ h1 in
      let (late, h3) = require-then-eq-ok (leb eta now) _ _ h2 in
      let (last, hl, h4) = >>=-eq-ok (checked_add eta grace_period) _ h3 in
      let (fresh, h5) = require-then-eq-ok (leb now last) _ _ h4 in
      let (sum, _) = checked_add-eq eta grace_period last hl in
      (queued, leb→le eta now late, subst (λ x. now ≤ x) sum (leb→le now last fresh), h5)

  execute-keeps :
      (now sender : ℕ) (a : Transaction) (eta minimum : ℕ) (log : List Entry)
      (s s' : Governed v.World)
      → IsPatient minimum log s.timelock
      → execute_transaction v now sender a eta s ≡ ok s'
      → IsPatient minimum log s'.timelock
  execute-keeps now sender a eta minimum log s s' i h =
      let (_, _, _, runs) = execute_parts now sender a eta s s' h in
      perform-keeps a minimum log _ s'
        (still-IsPatient minimum log s.timelock _ i refl refl (λ y q. ground (arith, q))) runs

  History-IsPatient :
      {s : Governed v.World} {log : List Entry} {u : Governed v.World} (minimum : ℕ)
      → History s log u
      → IsPatient minimum [] s.timelock
      → IsPatient minimum log u.timelock
  History-IsPatient minimum here i = i
  History-IsPatient minimum (queues {log} {u} past now sender a eta t h) i =
      queue-keeps now sender a eta minimum log u.timelock t (History-IsPatient minimum past i) h
  History-IsPatient minimum (cancels {log} {u} past sender a eta t h) i =
      cancel-keeps sender a eta minimum log u.timelock t (History-IsPatient minimum past i) h
  History-IsPatient minimum (executes {log} {u} {u'} past now sender a eta h) i =
      execute-keeps now sender a eta minimum log u u' (History-IsPatient minimum past i) h
  History-IsPatient minimum (takes_admin {log} {u} past sender t h) i =
      take_admin-keeps sender minimum log u.timelock t (History-IsPatient minimum past i) h
  History-IsPatient minimum (others past w) i = History-IsPatient minimum past i

  constructor-IsPatient :
      (admin delay minimum : ℕ) (t : Timelock)
      → constructor admin delay minimum ≡ ok t
      → IsPatient minimum [] t
  unfolding constructor
  constructor-IsPatient admin delay minimum t h = record {
    same_minimum = ground arith;
    least = ground arith;
    most = ground arith;
    logged = λ x q. absurd (ground (arith, q));
  }

  -- From the deployment on, whatever calls are made, a transaction that is executed at some time was
  -- queued with the same time to wait for, at least the minimum delay of the deployment before that
  -- time; that time has come, and lies at most 14 days back. Different transactions or times are
  -- taken to have different hashes.
  pub execute-waited :
      (admin delay minimum : ℕ) (w : v.World) (t : Timelock) {log : List Entry}
      {u u' : Governed v.World} (now sender : ℕ) (a : Transaction) (eta : ℕ)
      → ((b : Transaction) (x : ℕ) → v.get_tx_hash b x ≡ v.get_tx_hash a eta → (b ≡ a) × (x ≡ eta))
      → constructor admin delay minimum ≡ ok t
      → History (record { timelock = t; world = w }) log u
      → execute_transaction v now sender a eta u ≡ ok u'
      → (i : ℕ) × (e : Entry) × ((get_elem? log i ≡ some e)
          × (e.transaction ≡ a)
          × (e.eta ≡ eta)
          × (e.queued_at + minimum ≤ eta)
          × (eta ≤ now)
          × (now ≤ eta + grace_period))
  execute-waited admin delay minimum w t {u = u} {u' = u'} now sender a eta apart made past h =
      let i = History-IsPatient minimum past (constructor-IsPatient admin delay minimum t made) in
      let (queued, late, fresh, _) = execute_parts now sender a eta u u' h in
      let (k, e, (found, same, waited)) = i.logged (v.get_tx_hash a eta) queued in
      let (is_a, is_eta) = apart e.transaction e.eta same in
      (
        k,
        e,
        (found, is_a, is_eta, subst (λ x. e.queued_at + minimum ≤ x) is_eta waited, late, fresh),
      )

  -- Along every history the delay stays between the minimum of the deployment and 30 days.
  pub History-delay :
      (admin delay minimum : ℕ) (w : v.World) (t : Timelock) {log : List Entry}
      {u : Governed v.World}
      → constructor admin delay minimum ≡ ok t
      → History (record { timelock = t; world = w }) log u
      → (minimum ≤ u.timelock.delay) × (u.timelock.delay ≤ maximum_delay)
  History-delay admin delay minimum w t made past =
      let i = History-IsPatient minimum past (constructor-IsPatient admin delay minimum t made) in
      (i.least, i.most)
