-- ===== src/Redeemer/Payment.antt =====
-- What a redemption pays, and when it goes through.
use tribe.Base.{
  ℕ, ◌+◌, ◌*◌, ◌/◌, ◌^◌, ◌≤◌, ◌<◌, ◌≡◌, sym, ap, subst, ◌∙◌, ◌≢◌, true, ok, refl, ◌&&◌, ◌==◌,
  if◌then◌else◌, ok-injective, >>=-eq-ok, >>=-ok, require-then-ok, require-then-eq-ok, arith,
  uint256_mod, checked_add, checked_mul, checked_mul-ok, update₂,
}
use tribe.Evm.{Erc20, Moved}
use tribe.Redeemer.{Redeemer, preview_redeem, has_signed}
use tribe.Redeemer.Calls.{Env, Chain, redeem, redeem_one, redeem_effect, redeem_interaction}

preview_redeem-eq-ok :
    (r : Redeemer) (t n received : ℕ)
    → preview_redeem r t n ≡ ok received
    → received ≡ (r.ctoken_exchange_rates t * n) / 10 ^ 18
unfolding preview_redeem checked_mul
preview_redeem-eq-ok r t n received h = ground arith

preview_redeem-ok :
    (r : Redeemer) (t n : ℕ)
    → r.ctoken_exchange_rates t * n < uint256_mod
    → preview_redeem r t n ≡ ok ((r.ctoken_exchange_rates t * n) / 10 ^ 18)
unfolding preview_redeem
preview_redeem-ok r t n h = rw (checked_mul-ok _ _ h)

-- A transfer of one token leaves the balances of another alone.
other_token :
    (n base t this sender : ℕ) (before after : ℕ → ℕ → ℕ) (k : ℕ)
    → t ≢ base
    → k ≤ before base this
    → after base this + (if base == t && this == sender then n else 0)
      ≡ before base this + (if base == t && this == this then n else 0)
    → k ≤ after base this
other_token n base t this sender before after k ne h moved = ground arith

module _ (v : Env) (e : Erc20) where
  redeem_effect-eq-ok :
      (sender t n : ℕ) (r r' : Redeemer)
      → redeem_effect v e sender t n r ≡ ok r'
      → (n ≢ 0)
        × (r.redemptions sender t + n ≤ r.claims sender t)
        × (r' ≡ record r {
          redemptions = update₂ r.redemptions sender t (r.redemptions sender t + n);
        })
  unfolding redeem_effect checked_add
  redeem_effect-eq-ok sender t n r r' h = ground arith

  -- The payment: the user's tokens come in, and base tokens go out at the rate.
  abbrev pub Pays : ℕ → ℕ → ℕ → Redeemer → e.World → e.World → Type 0
  Pays sender t n r w w' =
      (m : e.World) × Moved (e.balance_of w) (e.balance_of m) t sender v.this n
      × Moved (e.balance_of m) (e.balance_of w') r.base_token v.this sender
          ((r.ctoken_exchange_rates t * n) / 10 ^ 18)

  redeem_interaction-Pays :
      (sender t n : ℕ) (r : Redeemer) (w w' : e.World)
      → redeem_interaction v e sender t n r w ≡ ok w'
      → Pays sender t n r w w'
  unfolding redeem_interaction
  redeem_interaction-Pays sender t n r w w' h =
      let (received, hp, rest) = >>=-eq-ok (preview_redeem r t n) _ h in
      let (m, hm, ht) = >>=-eq-ok (e.transfer_from t v.this sender v.this n w) _ rest in
      (
        m,
        (e.transfer_from-Moved t v.this sender v.this n w m hm).1,
        subst (λ x. Moved (e.balance_of m) (e.balance_of w') r.base_token v.this sender x)
            (preview_redeem-eq-ok r t n received hp)
            (e.transfer-Moved r.base_token v.this sender received m w' ht).1,
      )

  -- A redemption that returns was of an amount that is not zero, by a user who has signed, within
  -- what was claimed and not yet redeemed. It adds the amount to the user's redemptions of that
  -- token and changes nothing else of the storage; the tokens move from the user to the contract,
  -- and the amount times the rate over 1e18, rounded down, of the base token to the user.
  pub redeem-eq-ok :
      (sender t n : ℕ) (c d : Chain e)
      → redeem v e sender t n c ≡ ok d
      → (has_signed v.keccak256 sender c.redeemer ≡ true)
        × (n ≢ 0)
        × (c.redeemer.redemptions sender t + n ≤ c.redeemer.claims sender t)
        × (d.redeemer ≡ record c.redeemer {
          redemptions =
              update₂ c.redeemer.redemptions sender t (c.redeemer.redemptions sender t + n);
        })
        × Pays sender t n c.redeemer c.world d.world
  unfolding redeem redeem_one
  redeem-eq-ok sender t n c d h =
      let (signed, h1) = require-then-eq-ok (has_signed v.keccak256 sender c.redeemer) _ _ h in
      let (r, hr, h2) = >>=-eq-ok (redeem_effect v e sender t n c.redeemer) _ h1 in
      let (w, hw, h3) = >>=-eq-ok (redeem_interaction v e sender t n r c.world) _ h2 in
      let (nonzero, within, new) = redeem_effect-eq-ok sender t n c.redeemer r hr in
      let paid : Pays sender t n c.redeemer c.world w =
        subst (λ x. Pays sender t n x c.world w) new
          (redeem_interaction-Pays sender t n r c.world w hw) in
      (
        signed,
        nonzero,
        within,
        ap (λ (x : Chain e). x.redeemer) (sym (ok-injective h3)) ∙ new,
        subst (λ (x : Chain e). Pays sender t n c.redeemer c.world x.world) (ok-injective h3) paid,
      )

  -- The storage after a redemption.
  abbrev redeemed : ℕ → ℕ → ℕ → Redeemer → Redeemer
  redeemed sender t n r = record r {
    redemptions = update₂ r.redemptions sender t (r.redemptions sender t + n);
  }

  redeem_effect-ok :
      (sender t n : ℕ) (r : Redeemer)
      → n ≢ 0
      → r.redemptions sender t + n ≤ r.claims sender t
      → r.claims sender t < uint256_mod
      → redeem_effect v e sender t n r ≡ ok (redeemed sender t n r)
  unfolding redeem_effect checked_add
  redeem_effect-ok sender t n r nonzero within bound = ground arith

  redeem_interaction_succeeds :
      (sender t n : ℕ) (r : Redeemer) (w m : e.World)
      → r.ctoken_exchange_rates t * n < uint256_mod
      → sender ≢ 0
      → t ≢ r.base_token
      → e.transfer_from t v.this sender v.this n w ≡ ok m
      → (r.ctoken_exchange_rates t * n) / 10 ^ 18 ≤ e.balance_of w r.base_token v.this
      → (w' : e.World) × (redeem_interaction v e sender t n r w ≡ ok w')
  unfolding redeem_interaction
  redeem_interaction_succeeds sender t n r w m product hs hb hm funded =
      let received = (r.ctoken_exchange_rates t * n) / 10 ^ 18 in
      let still : received ≤ e.balance_of m r.base_token v.this =
        other_token n r.base_token t v.this sender (e.balance_of w) (e.balance_of m) received hb
          funded ((e.transfer_from-Moved t v.this sender v.this n w m hm).1 r.base_token v.this) in
      let (w', hw) = e.transfer_succeeds r.base_token v.this sender received m hs still in
      (
        w',
        >>=-ok (preview_redeem r t n) _ received (preview_redeem-ok r t n product)
            (>>=-ok (e.transfer_from t v.this sender v.this n w) _ m hm hw),
      )

  -- A redemption goes through when the user has signed, redeems some amount within what is left
  -- of the claim, the redeemed token lets the contract take the amount from the user (a Fuse token
  -- that is collateral of a borrow does not), and the contract holds the payment; no product leaves
  -- 256 bits, the base token is not the redeemed one, and the user is not the zero address.
  pub redeem_succeeds :
      (sender t n : ℕ) (c : Chain e) (m : e.World)
      → has_signed v.keccak256 sender c.redeemer ≡ true
      → n ≢ 0
      → c.redeemer.redemptions sender t + n ≤ c.redeemer.claims sender t
      → c.redeemer.claims sender t < uint256_mod
      → c.redeemer.ctoken_exchange_rates t * n < uint256_mod
      → sender ≢ 0
      → t ≢ c.redeemer.base_token
      → e.transfer_from t v.this sender v.this n c.world ≡ ok m
      → (c.redeemer.ctoken_exchange_rates t * n) / 10 ^ 18
        ≤ e.balance_of c.world c.redeemer.base_token v.this
      → (d : Chain e) × (redeem v e sender t n c ≡ ok d)
  unfolding redeem redeem_one
  redeem_succeeds sender t n c m signed nonzero within bound product hs hb hm funded =
      let r = c.redeemer in
      let (w, hw) =
        redeem_interaction_succeeds sender t n (redeemed sender t n r) c.world m product hs hb hm
          funded in
      (
        record { redeemer = redeemed sender t n r; world = w },
        require-then-ok (has_signed v.keccak256 sender r) _ _ signed (
            >>=-ok (redeem_effect v e sender t n r) _ (redeemed sender t n r)
              (redeem_effect-ok sender t n r nonzero within bound)
              (>>=-ok (redeem_interaction v e sender t n (redeemed sender t n r) c.world) _ w hw
                refl)),
      )
