-- ===== src/Tips/DeploymentTests.antt =====
-- A reading of the addresses by their place in the list of tokens.
use tribe.Base.{
  ℕ, suc, ◌≡◌, ◌≢◌, List, [], ◌∷◌, map, String, str_eq, ok, All, Distinct, distinct_sound, ◌==◌,
  ==_iff, refl, arith, if◌then◌else◌,
}
use tribe.Redeemer
use tribe.Redeemer.{Redeemer}
use tribe.Tips.Tip121b.{validate_tokens}
use tribe.Tips.RepaymentData.{c_tokens, rates, roots}
use tribe.Tips.Deployment.{repayment_deploys}

abbrev place : List String → String → ℕ
place [] s = 0
place (x ∷ xs) s = let rest = place xs s in if str_eq x s then 0 else suc rest

abbrev to_address : String → ℕ
to_address s = place c_tokens s

abbrev to_bytes32 : String → ℕ
to_bytes32 s = suc (place roots s)

apart : Distinct (map to_address c_tokens)
apart = distinct_sound (λ x y. x == y) (λ x y. (==_iff x y).1) (map to_address c_tokens) refl

filled : (xs : List String) → All (λ x. x ≢ 0) (map to_bytes32 xs)
filled [] = tt
filled (x ∷ xs) = (λ e. absurd (omega (arith, e)), filled xs)

repayment_deploys_example :
    (r : Redeemer) × ((Redeemer.constructor 7 (map to_address c_tokens) rates (map to_bytes32 roots)
        ≡ ok r)
      × (validate_tokens r (map to_address c_tokens) (map to_bytes32 roots) rates ≡ ok tt))
repayment_deploys_example =
    repayment_deploys to_address to_bytes32 7 (λ e. absurd (omega (arith, e))) apart (filled roots)
