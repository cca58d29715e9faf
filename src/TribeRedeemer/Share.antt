-- ===== src/TribeRedeemer/Share.antt =====
-- What one redemption of TribeRedeemer.sol leaves behind for the others.
use native.Mathlib.Nat.{mul-le-mul_right, div-mul-le_self}
use tribe.Base.{
  ℕ, ◌+◌, ◌*◌, ◌/◌, ◌≤◌, ◌≡◌, ◌≢◌, sym, ap, ◌∙◌, List, [], ◌∷◌, map, ok, >>=-eq-ok,
  require-then-eq-ok, ok-injective, All, Distinct, not, ◌==◌, checked_sub, checked_sub-eq,
  checked_mul, checked_mul-eq, checked_div, checked_div-eq, arith,
}
use tribe.Evm.{Erc20, Moved}
use tribe.TribeRedeemer.{Basket, amounts_out, preview_redeem, send_all, redeem}

module _ (e : Erc20) (this : ℕ) where
  -- What `amount` of `base` takes of a token.
  abbrev pub share : ℕ → ℕ → e.World → ℕ → ℕ
  share amount base w t = (amount * e.balance_of w t this) / base

  pub amounts_out-share :
      (amount base : ℕ) (tokens : List ℕ) (w : e.World) (outs : List ℕ)
      → amounts_out e this amount base tokens w ≡ ok outs
      → outs ≡ map (share amount base w) tokens
  unfolding amounts_out
  amounts_out-share amount base [] w outs h = sym (ok-injective h)
  amounts_out-share amount base (t ∷ tokens) w outs h =
      let balance = e.balance_of w t this in
      let (_, h1) = require-then-eq-ok (not (balance == 0)) _ _ h in
      let (product, hp, h2) = >>=-eq-ok (checked_mul amount balance) _ h1 in
      let (out, ho, h3) = >>=-eq-ok (checked_div product base) _ h2 in
      let (rest, hr, h4) = >>=-eq-ok (amounts_out e this amount base tokens w) _ h3 in
      let is_share =
        (checked_div-eq product base out ho).0
        ∙ ap (λ x. x / base) (checked_mul-eq amount balance product hp) in
      sym (ok-injective h4)
      ∙ ap (λ x. x ∷ rest) is_share
      ∙ ap (λ xs. share amount base w t ∷ xs) (amounts_out-share amount base tokens w rest hr)

  module _ (to : ℕ) (f : ℕ → ℕ) where
    send_all-others :
        (tokens : List ℕ) (w w' : e.World) (x : ℕ)
        → All (λ t. x ≢ t) tokens
        → send_all e this to tokens (map f tokens) w ≡ ok w'
        → e.balance_of w' x this ≡ e.balance_of w x this
    unfolding send_all
    send_all-others [] w w' x apart h = ap (λ u. e.balance_of u x this) (sym (ok-injective h))
    send_all-others (t ∷ tokens) w w' x apart h =
        let (w1, hw, h1) = >>=-eq-ok (e.transfer t this to (f t) w) _ h in
        let moved = (e.transfer-Moved t this to (f t) w w1 hw).1 x this in
        send_all-others tokens w1 w' x apart.1 h1 ∙ ground (arith, apart.0, moved)

    -- Each token loses at most its amount.
    Leaves : e.World → e.World → ℕ → Type 0
    Leaves w w' t = e.balance_of w t this ≤ e.balance_of w' t this + f t

    still-Leaves :
        (tokens : List ℕ) (w w1 w' : e.World)
        → All (λ t. e.balance_of w t this ≡ e.balance_of w1 t this) tokens
        → All (Leaves w1 w') tokens
        → All (Leaves w w') tokens
    unfolding Leaves
    still-Leaves [] w w1 w' same leaves = tt
    still-Leaves (t ∷ tokens) w w1 w' same leaves =
        (omega (arith, same.0, leaves.0), still-Leaves tokens w w1 w' same.1 leaves.1)

    pub same_others :
        (tokens : List ℕ) (w w1 : e.World) (t : ℕ)
        → All (λ x. t ≢ x) tokens
        → Moved (e.balance_of w) (e.balance_of w1) t this to (f t)
        → All (λ x. e.balance_of w x this ≡ e.balance_of w1 x this) tokens
    same_others [] w w1 t apart moved = tt
    same_others (x ∷ tokens) w w1 t apart moved =
        (ground (arith, moved x this, apart.0), same_others tokens w w1 t apart.1 moved)

    send_all-Leaves :
        (tokens : List ℕ) (w w' : e.World)
        → Distinct tokens
        → send_all e this to tokens (map f tokens) w ≡ ok w'
        → All (Leaves w w') tokens
    unfolding send_all Leaves
    send_all-Leaves [] w w' distinct h = tt
    send_all-Leaves (t ∷ tokens) w w' distinct h =
        let (w1, hw, h1) = >>=-eq-ok (e.transfer t this to (f t) w) _ h in
        let moved = (e.transfer-Moved t this to (f t) w w1 hw).1 in
        (
          ground (arith, moved t this, send_all-others tokens w1 w' t distinct.0 h1),
          still-Leaves tokens w w1 w' (same_others tokens w w1 t distinct.0 moved)
              (send_all-Leaves tokens w1 w' distinct.1 h1),
        )

keeps_ratio :
    (a c base b b1 b' : ℕ) → base ≡ c + a → b ≤ b1 → b1 ≤ b' + (a * b1) / base → b * c ≤ b' * base
keeps_ratio a c base b b1 b' split more left = omega (
  arith,
  mul-le-mul_right c more,
  mul-le-mul_right base left,
  div-mul-le_self (a * b1) base,
  ap (λ x. b1 * x) split,
)

module _ (e : Erc20) (this : ℕ) where
  -- What a redemption that returns has done, from the transfer that it begins with.
  pub record Redeems (sender to amount : ℕ) (s s' : Basket e) : Type 0 where
    pub received : e.World
    pub taken :
        e.transfer_from s.redeemer.redeemed_token this sender this amount s.world ≡ ok received
    pub split : s.redeemer.redeem_base ≡ s'.redeemer.redeem_base + amount
    pub same : s'.redeemer.tokens_received ≡ s.redeemer.tokens_received
    pub sent :
        send_all e this to s.redeemer.tokens_received
          (map (share e this amount s.redeemer.redeem_base received) s.redeemer.tokens_received)
          received
        ≡ ok s'.world

  pub redeem_parts :
      (sender to amount : ℕ) (s s' : Basket e)
      → redeem e this sender to amount s ≡ ok s'
      → Redeems sender to amount s s'
  unfolding redeem preview_redeem
  redeem_parts sender to amount s s' h =
      let r = s.redeemer in
      let (w, hw, h1) =
        >>=-eq-ok (e.transfer_from r.redeemed_token this sender this amount s.world) _ h in
      let (outs, ho, h2) =
        >>=-eq-ok (amounts_out e this amount r.redeem_base r.tokens_received w) _ h1 in
      let (base, hb, h3) = >>=-eq-ok (checked_sub r.redeem_base amount) _ h2 in
      let (w', hs, h4) = >>=-eq-ok (send_all e this to r.tokens_received outs w) _ h3 in
      let new = ok-injective h4 in
      let outs_share = amounts_out-share e this amount r.redeem_base r.tokens_received w outs ho in
      record {
        received = w;
        taken = hw;
        split =
            checked_sub-eq r.redeem_base amount base hb
            ∙ ap (λ (x : Basket e). x.redeemer.redeem_base + amount) new;
        same = ap (λ (x : Basket e). x.redeemer.tokens_received) (sym new);
        sent =
            ap (λ xs. send_all e this to r.tokens_received xs w) (sym outs_share)
            ∙ hs
            ∙ ap (λ (x : Basket e). ok x.world) new;
      }

  -- The balance of a token against the base: it does not fall from `s` to `s'`.
  abbrev pub NoLess : Basket e → Basket e → ℕ → Type 0
  NoLess s s' t =
      e.balance_of s.world t this * s'.redeemer.redeem_base
      ≤ e.balance_of s'.world t this * s.redeemer.redeem_base

  ratios :
      (sender to amount : ℕ) (s s' : Basket e) (k : Redeems sender to amount s s') (tokens : List ℕ)
      → All
          (Leaves e this to
            (share e this amount s.redeemer.redeem_base k.received)
            k.received
            s'.world)
          tokens
      → All (NoLess s s') tokens
  unfolding Leaves
  ratios sender to amount s s' k [] leaves = tt
  ratios sender to amount s s' k (t ∷ tokens) leaves =
      let moved =
        (e.transfer_from-Moved s.redeemer.redeemed_token this sender this amount s.world k.received
            k.taken).1
          t this in
      (
        keeps_ratio amount s'.redeemer.redeem_base s.redeemer.redeem_base
            (e.balance_of s.world t this) (e.balance_of k.received t this)
            (e.balance_of s'.world t this) k.split (ground (arith, moved)) leaves.0,
        ratios sender to amount s s' k tokens leaves.1,
      )

  -- A redemption leaves at least as much of every received token for each unit of the base that is
  -- left, when no token is listed twice: the balance times the new base is at most the new balance
  -- times the base.
  pub redeem-NoLess :
      (sender to amount : ℕ) (s s' : Basket e)
      → Distinct s.redeemer.tokens_received
      → redeem e this sender to amount s ≡ ok s'
      → All (NoLess s s') s.redeemer.tokens_received
  redeem-NoLess sender to amount s s' distinct h =
      let k = redeem_parts sender to amount s s' h in
      ratios sender to amount s s' k s.redeemer.tokens_received (
        send_all-Leaves e this to (share e this amount s.redeemer.redeem_base k.received)
          s.redeemer.tokens_received k.received s'.world distinct k.sent)
