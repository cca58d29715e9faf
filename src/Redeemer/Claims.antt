-- ===== src/Redeemer/Claims.antt =====
-- What the redeemer's storage can hold: which claims are recorded, and how much of each is
-- redeemed, along any history of transactions.
use tribe.Base.{
  ℕ, ◌≤◌, ◌≡◌, refl, ◌≢◌, ◌⊎◌, inr, true, List, ok, arith, checked_add, update₂, update₂_keeps,
}
use tribe.Evm.{Bytes, Erc20}
use tribe.Redeemer.{Redeemer, claim_one, verify, leaf_hash}
use tribe.Redeemer.Calls.{Env, Chain, sign_one, redeem_effect}
use tribe.Redeemer.Trace.{History}
use tribe.Redeemer.Storage.{Kept, History-keeps}

-- A user's claim is zero, or the amount of a leaf that some proof ties to the token's root.
abbrev pub Proven : Env → (ℕ → ℕ) → ℕ → ℕ → ℕ → Type 0
Proven v roots u t n =
    (n ≡ 0)
    ⊎ ((proof : List ℕ) × (verify v.keccak256 proof (roots t) (leaf_hash v.keccak256 u n) ≡ true))

-- Nobody redeems more than was claimed, every claim is proven, and the configuration is fixed.
pub record IsSound (v : Env) (roots rates : ℕ → ℕ) (r : Redeemer) : Type 0 where
  pub within : (u t : ℕ) → r.redemptions u t ≤ r.claims u t
  pub proven : (u t : ℕ) → Proven v roots u t (r.claims u t)
  pub same_roots : (t : ℕ) → r.merkle_roots t ≡ roots t
  pub same_rates : (t : ℕ) → r.ctoken_exchange_rates t ≡ rates t

claim_one-eq-ok :
    (v : Env) (sender t n : ℕ) (proof : List ℕ) (r r' : Redeemer)
    → claim_one v.keccak256 sender t n proof r ≡ ok r'
    → (r.claims sender t ≡ 0)
      × (verify v.keccak256 proof (r.merkle_roots t) (leaf_hash v.keccak256 sender n) ≡ true)
      × (r' ≡ record r { claims = update₂ r.claims sender t n })
unfolding claim_one
claim_one-eq-ok v sender t n proof r r' h = ground arith

module _ (v : Env) (e : Erc20) (roots rates : ℕ → ℕ) where
  sign_one-IsSound :
      (sender : ℕ) (s : Bytes) (r r' : Redeemer)
      → sign_one v e sender s r ≡ ok r'
      → IsSound v roots rates r
      → IsSound v roots rates r'
  unfolding sign_one
  sign_one-IsSound sender s r r' h i = record {
    within = λ u t. ground (arith, i.within u t);
    proven = λ u t. ground (arith, i.proven u t);
    same_roots = λ t. ground (arith, i.same_roots t);
    same_rates = λ t. ground (arith, i.same_rates t);
  }

  claim_one-IsSound :
      (sender t n : ℕ) (proof : List ℕ) (r r' : Redeemer)
      → claim_one v.keccak256 sender t n proof r ≡ ok r'
      → IsSound v roots rates r
      → IsSound v roots rates r'
  claim_one-IsSound sender t n proof r r' h i =
      let (unclaimed, checked, new) = claim_one-eq-ok v sender t n proof r r' h in
      record {
        within = λ u x. ground (arith, i.within u x);
        proven = λ u x. rw new (
            update₂_keeps (Proven v roots) r.claims sender t n u x i.proven
              (inr (proof, rw i.same_roots at checked)));
        same_roots = λ x. rw new (i.same_roots x);
        same_rates = λ x. rw new (i.same_rates x);
      }

  redeem_effect-IsSound :
      (sender t n : ℕ) (r r' : Redeemer)
      → redeem_effect v e sender t n r ≡ ok r'
      → IsSound v roots rates r
      → IsSound v roots rates r'
  unfolding redeem_effect checked_add
  redeem_effect-IsSound sender t n r r' h i = record {
    within = λ u x. ground (arith, i.within u x);
    proven = λ u x. ground (arith, i.proven u x);
    same_roots = λ x. ground (arith, i.same_roots x);
    same_rates = λ x. ground (arith, i.same_rates x);
  }

  IsSound-Kept : Kept v e (IsSound v roots rates)
  IsSound-Kept = record {
    by_sign = sign_one-IsSound;
    by_claim = claim_one-IsSound;
    by_redeem = redeem_effect-IsSound;
  }

  -- From a sound state every history of transactions leads to a sound state: nobody has redeemed
  -- more of a token than they claimed, and every claim is zero or has a proof against the root
  -- that the contract was configured with.
  pub History-IsSound :
      {c d : Chain e}
      → History v e c d
      → IsSound v roots rates c.redeemer
      → IsSound v roots rates d.redeemer
  History-IsSound past = History-keeps v e IsSound-Kept past

module _ (v : Env) (e : Erc20) where
  -- What a user has claimed for a token, and at least how much of it is redeemed.
  abbrev pub Claimed : ℕ → ℕ → ℕ → ℕ → Redeemer → Type 0
  Claimed u t n k r = (n ≢ 0) × (r.claims u t ≡ n) × (k ≤ r.redemptions u t)

  Claimed-Kept : (u t n k : ℕ) → Kept v e (Claimed u t n k)
  unfolding sign_one claim_one redeem_effect checked_add
  Claimed-Kept u t n k = record {
    by_sign = λ sender s r r' h c. ground arith;
    by_claim = λ sender x m proof r r' h c. ground arith;
    by_redeem = λ sender x m r r' h c. ground arith;
  }

  -- A claim that is not zero stays as it is along every history, whoever calls what, and the
  -- amount redeemed against it never falls.
  pub History-Claimed :
      (u t : ℕ) {c d : Chain e}
      → History v e c d
      → c.redeemer.claims u t ≢ 0
      → (d.redeemer.claims u t ≡ c.redeemer.claims u t)
        × (c.redeemer.redemptions u t ≤ d.redeemer.redemptions u t)
  History-Claimed u t {c} past h =
      let kept =
        History-keeps v e (Claimed-Kept u t (c.redeemer.claims u t) (c.redeemer.redemptions u t))
          past (h, refl, omega arith) in
      (kept.1, kept.2)
