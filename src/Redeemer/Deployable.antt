-- ===== src/Redeemer/Deployable.antt =====
-- Which arguments the constructor accepts.
use tribe.Base.{ℕ, ◌<◌, ◌^◌, ◌≡◌, ◌≢◌, refl, List, [], ◌∷◌, ok, length, All, update, arith}
use tribe.Redeemer.{
  Redeemer, unset, constructor, configure_rates, configure_exchange_rates, configure_roots,
  configure_merkle_roots, configure_base_token,
}
use tribe.Redeemer.Deployment.{assign, deployed}

configure_rates-ok :
    (ts xs : List ℕ) (r : Redeemer)
    → All (λ x. 10 ^ 10 < x) xs
    → configure_rates ts xs r
      ≡ ok (record r { ctoken_exchange_rates = assign ts xs r.ctoken_exchange_rates })
unfolding configure_rates
configure_rates-ok [] xs r h = refl
configure_rates-ok (t ∷ ts) [] r h = refl
configure_rates-ok (t ∷ ts) (x ∷ xs) r h = ground (
  arith,
  h.0,
  configure_rates-ok ts xs (record r { ctoken_exchange_rates = update r.ctoken_exchange_rates t x })
      h.1,
)

configure_roots-ok :
    (ts xs : List ℕ) (r : Redeemer)
    → All (λ x. x ≢ 0) xs
    → configure_roots ts xs r ≡ ok (record r { merkle_roots = assign ts xs r.merkle_roots })
unfolding configure_roots
configure_roots-ok [] xs r h = refl
configure_roots-ok (t ∷ ts) [] r h = refl
configure_roots-ok (t ∷ ts) (x ∷ xs) r h = ground (
  arith,
  h.0,
  configure_roots-ok ts xs (record r { merkle_roots = update r.merkle_roots t x }) h.1,
)

-- The constructor accepts 27 tokens with 27 rates above 1e10 and 27 roots that are not zero, for a
-- base token that is not zero.
pub constructor_succeeds :
    (token : ℕ) (ts rates roots : List ℕ)
    → length ts ≡ 27
    → length rates ≡ 27
    → length roots ≡ 27
    → token ≢ 0
    → All (λ x. 10 ^ 10 < x) rates
    → All (λ x. x ≢ 0) roots
    → constructor token ts rates roots ≡ ok (deployed token ts rates roots)
unfolding constructor configure_exchange_rates configure_merkle_roots configure_base_token
constructor_succeeds token ts rates roots lt lx lm nonzero hx hm = ground (
  arith,
  configure_rates-ok ts rates unset hx,
  configure_roots-ok ts roots (record unset { ctoken_exchange_rates = assign ts rates (λ t. 0) })
      hm,
)
