-- ===== src/Tips/Funding.antt =====
-- tip_121b passes the validation that it comes with.
use tribe.Base.{
  suc, length, get_elem?, Distinct, ℕ, ◌≡◌, refl, true, false, some, List, [], ◌∷◌, ok,
  require-then-ok, ◌==◌, sym, ◌∙◌, arith,
}
use tribe.Evm.{Erc20}
use tribe.Dripper.{Dripper, constructor}
use tribe.Redeemer.{Redeemer}
use tribe.Redeemer
use tribe.Redeemer.Deployment.{constructor-eq-ok, constructor-at}
use tribe.Tips.Tip121b.{validate_tokens, drip_period, drip_amount}

same-== : {a b : ℕ} → a ≡ b → (a == b) ≡ true
same-== h = ground (arith, h)

module _ (e : Erc20) (this fei redeemer timelock start now later : ℕ) (w : e.World) where
  abbrev dripper : Dripper
  dripper = record {
    target = redeemer;
    token = fei;
    amount_to_drip = drip_amount;
    start_time = start;
    duration = drip_period;
    paused = false;
  }

validate_tokens-ok :
    (r : Redeemer) (ts roots rates : List ℕ)
    → length ts ≡ length roots
    → length ts ≡ length rates
    → ((i t m x : ℕ)
        → get_elem? ts i ≡ some t
        → get_elem? rates i ≡ some x
        → get_elem? roots i ≡ some m
        → (r.ctoken_exchange_rates t ≡ x) × (r.merkle_roots t ≡ m))
    → validate_tokens r ts roots rates ≡ ok tt
unfolding validate_tokens
validate_tokens-ok r [] roots rates h k at = refl
validate_tokens-ok r (t ∷ ts) [] rates h k at = absurd (ground arith)
validate_tokens-ok r (t ∷ ts) (m ∷ ms) [] h k at = absurd (ground arith)
validate_tokens-ok r (t ∷ ts) (m ∷ ms) (x ∷ xs) h k at =
    let (rate, root) = at 0 t m x refl refl refl in
    require-then-ok (r.merkle_roots t == m) _ _ (same-== root) (
      require-then-ok (r.ctoken_exchange_rates t == x) _ _ (same-== rate)
        (validate_tokens-ok r ts ms xs (ground arith) (ground arith) (λ i. at (suc i))))

-- Every deployment of the redeemer that returns, over tokens that are all different, passes the
-- proposal's comparison of the roots and rates that it stores with those of its arguments.
pub constructor-validates :
    (base : ℕ) (ts rates roots : List ℕ) (r : Redeemer)
    → Redeemer.constructor base ts rates roots ≡ ok r
    → Distinct ts
    → validate_tokens r ts roots rates ≡ ok tt
constructor-validates base ts rates roots r h distinct =
    let (l, lx, lm, _, _) = constructor-eq-ok base ts rates roots r h in
    validate_tokens-ok r ts roots rates (l ∙ sym lm) (l ∙ sym lx)
      (λ i t m x ht hx hm. constructor-at base ts rates roots r i t x m h distinct ht hx hm)
