-- ===== src/Tips/Deployment.antt =====
-- tip_121b deploys with the data of the repository.
use tribe.Base.{ℕ, ◌^◌, ◌<◌, ◌≡◌, ◌≢◌, refl, map, String, ok, All, Distinct, arith}
use tribe.Redeemer
use tribe.Redeemer.{Redeemer}
use tribe.Redeemer.Deployment.{deployed}
use tribe.Redeemer.Deployable.{constructor_succeeds}
use tribe.Tips.Tip121b.{validate_tokens}
use tribe.Tips.Funding.{constructor-validates}
use tribe.Tips.RepaymentData.{c_tokens, rates, roots}

high_rates : All (λ x. 10 ^ 10 < x) rates
high_rates = omega arith

-- The deployment of the redeemer by tip_121b, with the tokens, rates and roots of the repository,
-- goes through and passes the proposal's comparison of what it stores, for every reading of the
-- texts that keeps the 27 addresses apart, gives no root the number zero, and a base token that is
-- not zero.
pub repayment_deploys :
    (to_address to_bytes32 : String → ℕ) (base : ℕ)
    → base ≢ 0
    → Distinct (map to_address c_tokens)
    → All (λ x. x ≢ 0) (map to_bytes32 roots)
    → (r : Redeemer) × ((Redeemer.constructor base
            (map to_address c_tokens)
            rates
            (map to_bytes32 roots)
          ≡ ok r)
        × (validate_tokens r (map to_address c_tokens) (map to_bytes32 roots) rates ≡ ok tt))
repayment_deploys to_address to_bytes32 base nonzero distinct filled =
    let r = deployed base (map to_address c_tokens) rates (map to_bytes32 roots) in
    let runs =
      constructor_succeeds base (map to_address c_tokens) rates (map to_bytes32 roots) refl refl
        refl nonzero high_rates filled in
    (
      r,
      (
        runs,
        constructor-validates base (map to_address c_tokens) rates (map to_bytes32 roots) r runs
            distinct,
      ),
    )
