-- ===== src/FuseDebt/Tests.antt =====
-- 3 ETH and a half owed to one token of pool 8, and nothing else.
use tribe.Base.{
  [], ◌∷◌, ℕ, ◌*◌, ◌/◌, ◌^◌, ◌≡◌, inr, refl, some, String, ok, All, str_eq, if◌then◌else◌,
}
use tribe.Js.{Object, get, to_lower_case}
use tribe.FuseDebt.{underlyings, ctokens, get_fuse_bad_debt}
use tribe.FuseDebt.Totals.{owed, IsKnown, units, get_fuse_bad_debt-owed}

abbrev underlying : String → String
underlying t = "0x0000000000000000000000000000000000000000"

abbrev balance : String → ℕ
balance t = if str_eq t "0xbb025d470162cc5ea24daf7d4566064ee7f5f111" then 35 * 10 ^ 17 else 0

known : (tokens : Object String) → All (λ t. IsKnown underlying balance t.0) tokens
unfolding get underlyings to_lower_case
known [] = tt
known ((t, label) ∷ tokens) = (inr ("ETH", refl), known tokens)

get_fuse_bad_debt-owed_example :
    (debt : Object ℕ) × ((get_fuse_bad_debt (λ t. ok (underlying t)) (λ t. ok (balance t))
        ≡ ok debt)
      × All (λ x. get debt x.0 ≡ some (owed underlying balance x.0 ctokens / x.1)) units)
get_fuse_bad_debt-owed_example =
    get_fuse_bad_debt-owed (λ t. ok (underlying t)) (λ t. ok (balance t)) underlying balance
      (λ t. refl) (λ t. refl) (known ctokens)
