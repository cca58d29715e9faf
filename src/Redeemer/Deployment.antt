-- ===== src/Redeemer/Deployment.antt =====
-- What the constructor leaves in the storage.
use tribe.Base.{
  ℕ, zero, suc, ◌≡◌, refl, ◌≢◌, inl, some, List, [], ◌∷◌, ok, >>=-eq-ok, length, get_elem?, All,
  Distinct, update, arith,
}
use tribe.Redeemer.{
  Redeemer, unset, constructor, configure_rates, configure_exchange_rates, configure_roots,
  configure_merkle_roots, configure_base_token,
}
use tribe.Redeemer.Calls.{Env}
use tribe.Redeemer.Claims.{IsSound}

-- The writes `m[keys[i]] = values[i]`, in order.
abbrev pub assign : List ℕ → List ℕ → (ℕ → ℕ) → ℕ → ℕ
assign (k ∷ ks) (v ∷ vs) m = assign ks vs (update m k v)
assign _ _ m = m

assign_untouched :
    (ks vs : List ℕ) (m : ℕ → ℕ) (j : ℕ) → All (λ k. j ≢ k) ks → assign ks vs m j ≡ m j
assign_untouched [] vs m j h = refl
assign_untouched (k ∷ ks) [] m j h = refl
assign_untouched (k ∷ ks) (v ∷ vs) m j h =
    ground (arith, h.0, assign_untouched ks vs (update m k v) j h.1)

pub assign_at :
    (ks vs : List ℕ) (m : ℕ → ℕ) (i k v : ℕ)
    → Distinct ks
    → get_elem? ks i ≡ some k
    → get_elem? vs i ≡ some v
    → assign ks vs m k ≡ v
assign_at [] vs m i k v d hk hv = cc
assign_at (x ∷ ks) [] m i k v d hk hv = cc
assign_at (x ∷ ks) (y ∷ vs) m zero k v d hk hv =
    ground (arith, assign_untouched ks vs (update m x y) x d.0)
assign_at (x ∷ ks) (y ∷ vs) m (suc i) k v d hk hv = assign_at ks vs (update m x y) i k v d.1 hk hv

configure_rates-eq-ok :
    (ts xs : List ℕ) (r r' : Redeemer)
    → configure_rates ts xs r ≡ ok r'
    → r' ≡ record r { ctoken_exchange_rates = assign ts xs r.ctoken_exchange_rates }
unfolding configure_rates
configure_rates-eq-ok [] xs r r' h = cc
configure_rates-eq-ok (t ∷ ts) [] r r' h = cc
configure_rates-eq-ok (t ∷ ts) (x ∷ xs) r r' h = ground (
  arith,
  configure_rates-eq-ok ts xs
      (record r { ctoken_exchange_rates = update r.ctoken_exchange_rates t x }) r',
)

configure_roots-eq-ok :
    (ts xs : List ℕ) (r r' : Redeemer)
    → configure_roots ts xs r ≡ ok r'
    → r' ≡ record r { merkle_roots = assign ts xs r.merkle_roots }
unfolding configure_roots
configure_roots-eq-ok [] xs r r' h = cc
configure_roots-eq-ok (t ∷ ts) [] r r' h = cc
configure_roots-eq-ok (t ∷ ts) (x ∷ xs) r r' h =
    ground (
      arith,
      configure_roots-eq-ok ts xs (record r { merkle_roots = update r.merkle_roots t x }) r',
    )

-- The storage that a constructor call leaves.
abbrev pub deployed : ℕ → List ℕ → List ℕ → List ℕ → Redeemer
deployed token ts rates roots = record unset {
  base_token = token;
  ctoken_exchange_rates = assign ts rates (λ t. 0);
  merkle_roots = assign ts roots (λ t. 0);
}

configure_exchange_rates-eq-ok :
    (ts xs : List ℕ) (r r' : Redeemer)
    → configure_exchange_rates ts xs r ≡ ok r'
    → (length ts ≡ 27)
      × (length xs ≡ 27)
      × (r' ≡ record r { ctoken_exchange_rates = assign ts xs r.ctoken_exchange_rates })
unfolding configure_exchange_rates
configure_exchange_rates-eq-ok ts xs r r' h = ground (arith, configure_rates-eq-ok ts xs r r')

configure_merkle_roots-eq-ok :
    (ts xs : List ℕ) (r r' : Redeemer)
    → configure_merkle_roots ts xs r ≡ ok r'
    → (length ts ≡ 27)
      × (length xs ≡ 27)
      × (r' ≡ record r { merkle_roots = assign ts xs r.merkle_roots })
unfolding configure_merkle_roots
configure_merkle_roots-eq-ok ts xs r r' h = ground (arith, configure_roots-eq-ok ts xs r r')

configure_base_token-eq-ok :
    (token : ℕ) (r r' : Redeemer)
    → configure_base_token token r ≡ ok r'
    → (token ≢ 0) × (r' ≡ record r { base_token = token })
unfolding configure_base_token
configure_base_token-eq-ok token r r' h = ground arith

-- A deployment that returns was given 27 tokens, rates and roots and a base token that is not
-- zero, and its storage holds exactly those, with no signature, claim or redemption.
pub constructor-eq-ok :
    (token : ℕ) (ts rates roots : List ℕ) (r : Redeemer)
    → constructor token ts rates roots ≡ ok r
    → (length ts ≡ 27)
      × (length rates ≡ 27)
      × (length roots ≡ 27)
      × (token ≢ 0)
      × (r ≡ deployed token ts rates roots)
unfolding constructor
constructor-eq-ok token ts rates roots r h =
    let (r1, h1, rest) = >>=-eq-ok (configure_exchange_rates ts rates unset) _ h in
    let (r2, h2, h3) = >>=-eq-ok (configure_merkle_roots ts roots r1) _ rest in
    ground (
      arith,
      configure_exchange_rates-eq-ok ts rates unset r1 h1,
      configure_merkle_roots-eq-ok ts roots r1 r2 h2,
      configure_base_token-eq-ok token r2 r h3,
    )

-- A deployment over tokens that are all different holds for each token the root that stands at
-- its place in the arguments.
pub constructor-root_at :
    (token : ℕ) (ts rates roots : List ℕ) (r : Redeemer) (i t root : ℕ)
    → constructor token ts rates roots ≡ ok r
    → Distinct ts
    → get_elem? ts i ≡ some t
    → get_elem? roots i ≡ some root
    → r.merkle_roots t ≡ root
constructor-root_at token ts rates roots r i t root h d ht hm = ground (
  arith,
  constructor-eq-ok token ts rates roots r h,
  assign_at ts roots (λ x. 0) i t root d ht hm,
)

-- A deployment over tokens that are all different holds for each token the rate and the root that
-- stand at its place in the arguments: what the proposal's `validate` reads back.
pub constructor-at :
    (token : ℕ) (ts rates roots : List ℕ) (r : Redeemer) (i t rate root : ℕ)
    → constructor token ts rates roots ≡ ok r
    → Distinct ts
    → get_elem? ts i ≡ some t
    → get_elem? rates i ≡ some rate
    → get_elem? roots i ≡ some root
    → (r.ctoken_exchange_rates t ≡ rate) × (r.merkle_roots t ≡ root)
constructor-at token ts rates roots r i t rate root h d ht hr hm = ground (
  arith,
  constructor-eq-ok token ts rates roots r h,
  assign_at ts rates (λ x. 0) i t rate d ht hr,
  assign_at ts roots (λ x. 0) i t root d ht hm,
)

-- The storage that a deployment leaves is sound for the roots and rates it holds.
pub constructor-IsSound :
    (v : Env) (token : ℕ) (ts rates roots : List ℕ) (r : Redeemer)
    → constructor token ts rates roots ≡ ok r
    → IsSound v r.merkle_roots r.ctoken_exchange_rates r
constructor-IsSound v token ts rates roots r h =
    let e = (constructor-eq-ok token ts rates roots r h).4 in
    record {
      within = λ u t. ground arith;
      proven = λ u t. inl (ground arith);
      same_roots = λ t. refl;
      same_rates = λ t. refl;
    }
