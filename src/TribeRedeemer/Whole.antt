-- ===== src/TribeRedeemer/Whole.antt =====
-- When a redemption of TribeRedeemer.sol goes through.
use native.Mathlib.Nat.{mul-le-mul_right, mul-le-mul_left, div-le_of_le-mul}
use tribe.Base.{
  ℕ, ◌+◌, ◌-◌, ◌*◌, ◌/◌, ◌≤◌, ◌<◌, ◌≡◌, ◌≢◌, refl, List, [], ◌∷◌, map, ok, >>=-ok, require-then-ok,
  All, Distinct, not, ◌==◌, uint256_mod, checked_sub, checked_sub-ok, checked_mul, checked_mul-ok,
  checked_div, checked_div-ok, arith,
}
use tribe.Evm.{Erc20, Moved}
use tribe.TribeRedeemer.{Basket, amounts_out, preview_redeem, send_all, redeem}
use tribe.TribeRedeemer.Share.{share, same_others}

module _ (e : Erc20) (this : ℕ) where
  -- A token with a balance that can be multiplied by the amount.
  Pays : ℕ → e.World → ℕ → Type 0
  Pays amount w t = (e.balance_of w t this ≢ 0) × (amount * e.balance_of w t this < uint256_mod)

  amounts_out-ok :
      (amount base : ℕ) (tokens : List ℕ) (w : e.World)
      → 0 < base
      → All (Pays amount w) tokens
      → amounts_out e this amount base tokens w ≡ ok (map (share e this amount base w) tokens)
  unfolding amounts_out Pays
  amounts_out-ok amount base [] w pos pays = refl
  amounts_out-ok amount base (t ∷ tokens) w pos pays =
      let balance = e.balance_of w t this in
      require-then-ok (not (balance == 0)) _ _ (ground (arith, pays.0.0)) (
        >>=-ok (checked_mul amount balance) _ (amount * balance)
          (checked_mul-ok amount balance pays.0.1)
          (>>=-ok (checked_div (amount * balance) base) _ ((amount * balance) / base)
            (checked_div-ok (amount * balance) base pos)
            (>>=-ok (amounts_out e this amount base tokens w) _
              (map (share e this amount base w) tokens)
              (amounts_out-ok amount base tokens w pos pays.1) refl)))

  still_held :
      (f : ℕ → ℕ) (tokens : List ℕ) (w w1 : e.World)
      → All (λ t. e.balance_of w t this ≡ e.balance_of w1 t this) tokens
      → All (λ t. f t ≤ e.balance_of w t this) tokens
      → All (λ t. f t ≤ e.balance_of w1 t this) tokens
  still_held f [] w w1 same held = tt
  still_held f (t ∷ tokens) w w1 same held =
      (omega (arith, same.0, held.0), still_held f tokens w w1 same.1 held.1)

  send_all_succeeds :
      (to : ℕ) (f : ℕ → ℕ) (tokens : List ℕ) (w : e.World)
      → to ≢ 0
      → Distinct tokens
      → All (λ t. f t ≤ e.balance_of w t this) tokens
      → (w' : e.World) × (send_all e this to tokens (map f tokens) w ≡ ok w')
  unfolding send_all
  send_all_succeeds to f [] w receiver distinct held = (w, refl)
  send_all_succeeds to f (t ∷ tokens) w receiver distinct held =
      let (w1, hw) = e.transfer_succeeds t this to (f t) w receiver held.0 in
      let moved = (e.transfer-Moved t this to (f t) w w1 hw).1 in
      let (w', h) = send_all_succeeds to f tokens w1 receiver distinct.1 (
        still_held f tokens w w1 (same_others e this to f tokens w w1 t distinct.0 moved) held.1) in
      (w', >>=-ok (e.transfer t this to (f t) w) _ w1 hw h)

  covered :
      (amount base : ℕ) (tokens : List ℕ) (w : e.World)
      → amount ≤ base
      → All (λ t. share e this amount base w t ≤ e.balance_of w t this) tokens
  covered amount base [] w less = tt
  covered amount base (t ∷ tokens) w less = (
    div-le_of_le-mul base (mul-le-mul_right (e.balance_of w t this) less),
    covered amount base tokens w less,
  )

  -- A balance that stays payable when `amount` of the redeemed token comes in.
  abbrev pub IsPayable : ℕ → e.World → ℕ → Type 0
  IsPayable amount w t =
      (e.balance_of w t this ≢ 0) × (amount * (e.balance_of w t this + amount) < uint256_mod)

  then-Pays :
      (token sender amount : ℕ) (w w1 : e.World) (tokens : List ℕ)
      → Moved (e.balance_of w) (e.balance_of w1) token sender this amount
      → All (IsPayable amount w) tokens
      → All (Pays amount w1) tokens
  unfolding Pays
  then-Pays token sender amount w w1 [] moved h = tt
  then-Pays token sender amount w w1 (t ∷ tokens) moved h =
      let before = e.balance_of w t this in
      let after = e.balance_of w1 t this in
      let more : before ≤ after = ground (arith, moved t this) in
      let most : after ≤ before + amount = ground (arith, moved t this) in
      (
        (λ z. h.0.0 (omega (arith, z, more)), omega (arith, mul-le-mul_left amount most, h.0.1)),
        then-Pays token sender amount w w1 tokens moved h.1,
      )

  -- A redemption within the base goes through when the caller holds and has approved the redeemed
  -- tokens, the contract holds something of every received token, none of them listed twice, the
  -- products fit in 256 bits, and neither the receiver nor the contract is the zero address.
  pub redemption_succeeds :
      (sender to amount : ℕ) (s : Basket e)
      → to ≢ 0
      → this ≢ 0
      → 0 < s.redeemer.redeem_base
      → amount ≤ s.redeemer.redeem_base
      → amount ≤ e.balance_of s.world s.redeemer.redeemed_token sender
      → amount ≤ e.allowance s.world s.redeemer.redeemed_token sender this
      → Distinct s.redeemer.tokens_received
      → All (IsPayable amount s.world) s.redeemer.tokens_received
      → (s' : Basket e) × (redeem e this sender to amount s ≡ ok s')
  unfolding redeem preview_redeem
  redemption_succeeds sender to amount s receiver contract pos within held allowed distinct
        payable =
      let r = s.redeemer in
      let (w, hw) =
        e.transfer_from_succeeds r.redeemed_token this sender this amount s.world contract held
          allowed in
      let moved = (e.transfer_from-Moved r.redeemed_token this sender this amount s.world w hw).1 in
      let outs = map (share e this amount r.redeem_base w) r.tokens_received in
      let pays =
        then-Pays r.redeemed_token sender amount s.world w r.tokens_received moved payable in
      let (w', hs) =
        send_all_succeeds to (share e this amount r.redeem_base w) r.tokens_received w receiver
          distinct (covered amount r.redeem_base r.tokens_received w within) in
      (
        record { redeemer = record r { redeem_base = r.redeem_base - amount }; world = w' },
        >>=-ok (e.transfer_from r.redeemed_token this sender this amount s.world) _ w hw (
            >>=-ok (amounts_out e this amount r.redeem_base r.tokens_received w) _ outs
              (amounts_out-ok amount r.redeem_base r.tokens_received w pos pays)
              (>>=-ok (checked_sub r.redeem_base amount) _ (r.redeem_base - amount)
                (checked_sub-ok r.redeem_base amount within)
                (>>=-ok (send_all e this to r.tokens_received outs w) _ w' hs refl))),
      )
