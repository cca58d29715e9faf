-- ===== src/Dripper/Pace.antt =====
-- How fast the dripper gives tokens away, and when a drip goes through.
use tribe.Base.{
  Result, ◌∙◌, ◌==◌, ◌&&◌, if◌then◌else◌, ℕ, suc, ◌+◌, ◌*◌, ◌≤◌, ◌<◌, ◌≡◌, ◌≢◌, refl, Bool, true,
  false, not, ok, >>=-eq-ok, >>=-ok, require-then-eq-ok, require-then-ok, ok-injective, ltb, subst,
  ap, sym, arith, checked_sub,
}
use tribe.Evm.{Erc20, Moved}
use tribe.Dripper.Keeps.{withdraw_keeps, withdraw_token_keeps, withdraw_eth_keeps, set_paused_keeps}
use tribe.Dripper.{
  withdraw_token, withdraw_eth, Dripper, Funds, Rights, is_time_started, is_time_ended,
  time_since_start, remaining_time, erc20_drip, drip, withdraw, withdraw_erc20, set_paused,
}

is_time_ended-true :
    (now : ℕ) (d : Dripper)
    → d.duration ≢ 0
    → is_time_ended now d ≡ ok true
    → (d.start_time ≢ 0) × (d.start_time + d.duration ≤ now)
unfolding is_time_ended remaining_time time_since_start is_time_started checked_sub
is_time_ended-true now d period h = ground arith

is_time_ended-after :
    (now : ℕ) (d : Dripper)
    → d.start_time ≢ 0
    → d.start_time + d.duration ≤ now
    → is_time_ended now d ≡ ok true
unfolding is_time_ended remaining_time time_since_start is_time_started checked_sub
is_time_ended-after now d started late = ground arith

not-false : (b : Bool) → not b ≡ true → b ≡ false
not-false true h = cc
not-false false h = refl

ltb-true : {a b : ℕ} → ltb a b ≡ true → a < b
ltb-true h = ground arith

true-ltb : {a b : ℕ} → a < b → ltb a b ≡ true
true-ltb h = ground arith

below_two :
    (token this target amount : ℕ) (before after : ℕ → ℕ → ℕ)
    → target ≢ this
    → before token target < amount
    → after token target + (if token == token && target == this then amount else 0)
      ≡ before token target + (if token == token && target == target then amount else 0)
    → after token target < 2 * amount
below_two token this target amount before after other low moved = ground arith

module _ (e : Erc20) (this : ℕ) where
  -- What a drip that returns tells, whoever its target is.
  pub drip_parts :
      (now : ℕ) (s t : Funds e)
      → s.dripper.duration ≢ 0
      → drip e this now s ≡ ok t
      → (s.dripper.paused ≡ false)
        × (s.dripper.start_time + s.dripper.duration ≤ now)
        × (t.dripper ≡ record s.dripper { start_time = now })
        × Moved
            (e.balance_of s.world)
            (e.balance_of t.world)
            s.dripper.token
            this
            s.dripper.target
            s.dripper.amount_to_drip
        × (e.balance_of s.world s.dripper.token s.dripper.target < s.dripper.amount_to_drip)
  unfolding drip erc20_drip withdraw_erc20
  drip_parts now s t period h =
      let d = s.dripper in
      let w = s.world in
      let (low, h1) =
        require-then-eq-ok (ltb (e.balance_of w d.token d.target) d.amount_to_drip) _ _ h in
      let (ended, hended, h2) = >>=-eq-ok (is_time_ended now d) _ h1 in
      let (over, h3) = require-then-eq-ok ended _ _ h2 in
      let (running, h4) = require-then-eq-ok (not d.paused) _ _ h3 in
      let (w', hw, h5) = >>=-eq-ok (e.transfer d.token this d.target d.amount_to_drip w) _ h4 in
      let new = sym (ok-injective h5) in
      (
        not-false d.paused running,
        (is_time_ended-true now d period (hended ∙ ap ok over)).1,
        ap (λ (x : Funds e). x.dripper) new,
        subst (λ x. Moved (e.balance_of w) (e.balance_of x) d.token this d.target d.amount_to_drip)
            (sym (ap (λ (x : Funds e). x.world) new))
            (e.transfer-Moved d.token this d.target d.amount_to_drip w w' hw).1,
        ltb-true low,
      )

  -- A drip that returns, of a dripper whose period is not zero and whose target is another account,
  -- ran while it was not paused, a whole period or more after the timer was started. It resets the
  -- timer to the block's time, changes nothing else of the dripper, and moves one portion to the
  -- target, which then has less than two.
  pub drip-eq-ok :
      (now : ℕ) (s t : Funds e)
      → s.dripper.duration ≢ 0
      → s.dripper.target ≢ this
      → drip e this now s ≡ ok t
      → (s.dripper.paused ≡ false)
        × (s.dripper.start_time + s.dripper.duration ≤ now)
        × (t.dripper ≡ record s.dripper { start_time = now })
        × Moved
            (e.balance_of s.world)
            (e.balance_of t.world)
            s.dripper.token
            this
            s.dripper.target
            s.dripper.amount_to_drip
        × (e.balance_of t.world s.dripper.token s.dripper.target < 2 * s.dripper.amount_to_drip)
  drip-eq-ok now s t period other h =
      let d = s.dripper in
      let (running, late, new, moved, low) = drip_parts now s t period h in
      (
        running,
        late,
        new,
        moved,
        below_two d.token this d.target d.amount_to_drip (e.balance_of s.world)
            (e.balance_of t.world) other low (moved d.token d.target),
      )

  -- A drip goes through when the dripper is not paused, a whole period has passed since its timer
  -- was started, its target is not the zero address and has less than one portion, and the dripper
  -- holds a portion.
  pub drip_succeeds :
      (now : ℕ) (s : Funds e)
      → s.dripper.paused ≡ false
      → s.dripper.start_time ≢ 0
      → s.dripper.start_time + s.dripper.duration ≤ now
      → s.dripper.target ≢ 0
      → e.balance_of s.world s.dripper.token s.dripper.target < s.dripper.amount_to_drip
      → s.dripper.amount_to_drip ≤ e.balance_of s.world s.dripper.token this
      → (t : Funds e) × (drip e this now s ≡ ok t)
  unfolding drip erc20_drip withdraw_erc20
  drip_succeeds now s running started late target low funded =
      let d = s.dripper in
      let w = s.world in
      let (w', hw) = e.transfer_succeeds d.token this d.target d.amount_to_drip w target funded in
      (
        record { dripper = record d { start_time = now }; world = w' },
        require-then-ok (ltb (e.balance_of w d.token d.target) d.amount_to_drip) _ _ (true-ltb low)
            (>>=-ok (is_time_ended now d) _ true (is_time_ended-after now d started late) (
              require-then-ok (not d.paused) _ _ (ap not running)
                (>>=-ok (e.transfer d.token this d.target d.amount_to_drip w) _ w' hw refl))),
      )

  -- The transactions to the dripper, with the number of drips among them. Between two of them
  -- anything may happen to the tokens.
  pub data Drips (s : Funds e) : ℕ → Funds e → Type 0 where
    here : Drips s 0 s
    drips :
        {n : ℕ} {t u : Funds e}
        → Drips s n t
        → (now : ℕ) → drip e this now t ≡ ok u
        → Drips s (suc n) u
    withdraws :
        {n : ℕ} {t u : Funds e}
        → Drips s n t
        → (r : Rights) (sender recipient amount : ℕ)
        → withdraw e this r sender recipient amount t ≡ ok u
        → Drips s n u
    withdraws_token :
        {n : ℕ} {t u : Funds e}
        → Drips s n t
        → (r : Rights) (sender token recipient amount : ℕ)
        → withdraw_token e this r sender token recipient amount t ≡ ok u
        → Drips s n u
    withdraws_eth :
        {n : ℕ} {t u : Funds e}
        → Drips s n t
        → (send : (recipient amount : ℕ) → e.World → Result e.World) (r : Rights)
          (sender recipient amount : ℕ)
        → withdraw_eth e this send r sender recipient amount t ≡ ok u
        → Drips s n u
    pauses :
        {n : ℕ} {t u : Funds e}
        → Drips s n t
        → (b : Bool) (r : Rights) (sender : ℕ) → set_paused e this b r sender t ≡ ok u
        → Drips s n u
    others :
        {n : ℕ} {t : Funds e} → Drips s n t → (w : e.World) → Drips s n (record t { world = w })

  -- The tail of a history leaves the period as it is, and starts the timer no earlier than the
  -- number of drips tells.
  abbrev Paced : Dripper → ℕ → Dripper → Type 0
  Paced d n d' = (d'.duration ≡ d.duration) × (d.start_time + n * d.duration ≤ d'.start_time)

  Paced-step :
      (d x : Dripper) (n now : ℕ)
      → Paced d n x
      → x.start_time + x.duration ≤ now
      → Paced d (suc n) (record x { start_time = now })
  Paced-step d x n now h late = (h.0, ground (arith, h.0, h.1))

  -- Along every history of drips, withdrawals and pauses of a dripper whose period is not zero, n
  -- drips take n whole periods: the timer has moved on by at least n times the period, which stays
  -- as it is.
  pub Drips-pace :
      {s : Funds e} {n : ℕ} {t : Funds e}
      → Drips s n t
      → s.dripper.duration ≢ 0
      → (t.dripper.duration ≡ s.dripper.duration)
        × (s.dripper.start_time + n * s.dripper.duration ≤ t.dripper.start_time)
  Drips-pace here period = (refl, ground arith)
  Drips-pace {s} (drips {n} {t} {u} past now h) period =
      let before = Drips-pace past period in
      let (running, late, new, moved, low) =
        drip_parts now t u (λ z. period (sym before.0 ∙ z)) h in
      subst (Paced s.dripper (suc n)) (sym new) (Paced-step s.dripper t.dripper n now before late)
  Drips-pace {s} (withdraws {n} {t} {u} past r sender recipient amount h) period =
      subst (Paced s.dripper n) (sym (withdraw_keeps e this r sender recipient amount t u h))
        (Drips-pace past period)
  Drips-pace {s} (withdraws_token {n} {t} {u} past r sender token recipient amount h) period =
      subst (Paced s.dripper n)
        (sym (withdraw_token_keeps e this r sender token recipient amount t u h))
        (Drips-pace past period)
  Drips-pace {s} (withdraws_eth {n} {t} {u} past send r sender recipient amount h) period =
      subst (Paced s.dripper n)
        (sym (withdraw_eth_keeps e this send r sender recipient amount t u h))
        (Drips-pace past period)
  Drips-pace {s} (pauses {n} {t} {u} past b r sender h) period =
      subst (Paced s.dripper n) (sym (set_paused_keeps e this b r sender t u h))
        (Drips-pace past period)
  Drips-pace (others past w) period = Drips-pace past period
