-- ===== src/Redeemer/Calls.antt =====
-- The external functions of RariMerkleRedeemer.sol, each over the contract's storage and the
-- tokens. Every one is `nonReentrant`, so no call of another starts while the tokens are called.
use tribe.Base.{
  ℕ, not, List, ◌∷◌, Result, ok, ◌>>=◌, ◌>>◌, require, length, leb, ◌==◌, update, update₂,
  checked_add,
}
use tribe.Evm.{Bytes, Erc20}
use tribe.Redeemer.{Redeemer, claim_one, claim_many, has_signed, preview_redeem}

-- The state that a transaction runs on.
pub record Chain (e : Erc20) : Type 0 where
  pub redeemer : Redeemer
  pub world : e.World

-- The chain's hash, `ECDSA.recover`, the constant `MESSAGE_HASH` and the contract's own address.
pub record Env : Type 0 where
  pub keccak256 : Bytes → ℕ
  pub recover : ℕ → Bytes → Result ℕ
  pub message_hash : ℕ
  pub this : ℕ

module _ (v : Env) (e : Erc20) where
  -- `_sign`
  unfoldable pub sign_one : ℕ → Bytes → Redeemer → Result Redeemer
  sign_one sender signature r = do
    signer ← v.recover v.message_hash signature
    require (signer == sender) "Signature not valid"
    ok (record r { user_signatures = update r.user_signatures sender signature })

  -- The check and the effect of `_redeem` and of the first loop of `_multiRedeem`.
  unfoldable pub redeem_effect : ℕ → ℕ → ℕ → Redeemer → Result Redeemer
  redeem_effect sender ctoken amount r = do
    require (not (amount == 0)) "Invalid amount"
    redeemed ← checked_add (r.redemptions sender ctoken) amount
    require (leb redeemed (r.claims sender ctoken)) "Amount exceeds available remaining claim."
    ok (record r { redemptions = update₂ r.redemptions sender ctoken redeemed })

  -- The payment of `_redeem` and of the second loop of `_multiRedeem`.
  unfoldable pub redeem_interaction : ℕ → ℕ → ℕ → Redeemer → e.World → Result e.World
  redeem_interaction sender ctoken amount r w = do
    received ← preview_redeem r ctoken amount
    w' ← e.transfer_from ctoken v.this sender v.this amount w
    e.transfer r.base_token v.this sender received w'

  -- `_redeem`
  unfoldable pub redeem_one : ℕ → ℕ → ℕ → Chain e → Result (Chain e)
  redeem_one sender ctoken amount c = do
    r ← redeem_effect sender ctoken amount c.redeemer
    w ← redeem_interaction sender ctoken amount r c.world
    ok (record { redeemer = r; world = w })

  unfoldable pub redeem_effects : ℕ → List ℕ → List ℕ → Redeemer → Result Redeemer
  redeem_effects sender (t ∷ ts) (n ∷ ns) r = do
    require (not (t == 0)) "Invalid cToken address"
    r' ← redeem_effect sender t n r
    redeem_effects sender ts ns r'
  redeem_effects _ _ _ r = ok r

  unfoldable pub redeem_interactions : ℕ → List ℕ → List ℕ → Redeemer → e.World → Result e.World
  redeem_interactions sender (t ∷ ts) (n ∷ ns) r w = do
    w' ← redeem_interaction sender t n r w
    redeem_interactions sender ts ns r w'
  redeem_interactions _ _ _ _ w = ok w

  -- `_multiRedeem`
  unfoldable pub redeem_many : ℕ → List ℕ → List ℕ → Chain e → Result (Chain e)
  redeem_many sender ctokens amounts c = do
    require (length ctokens == length amounts) "Length of cTokens and amounts must match."
    r ← redeem_effects sender ctokens amounts c.redeemer
    w ← redeem_interactions sender ctokens amounts r c.world
    ok (record { redeemer = r; world = w })

  -- A function that touches only the storage, as a transaction.
  abbrev pub on_storage : (Redeemer → Result Redeemer) → Chain e → Result (Chain e)
  on_storage f c = do r ← f c.redeemer; ok (record { redeemer = r; world = c.world })

  abbrev pub must_have_signed : ℕ → Chain e → Result (Unit {0})
  must_have_signed sender c =
      require (has_signed v.keccak256 sender c.redeemer) "User has not signed."

  abbrev pub must_not_have_signed : ℕ → Chain e → Result (Unit {0})
  must_not_have_signed sender c =
      require (not (has_signed v.keccak256 sender c.redeemer)) "User has already signed"

  unfoldable pub sign : ℕ → Bytes → Chain e → Result (Chain e)
  sign sender signature c = do
    must_not_have_signed sender c
    on_storage (sign_one sender signature) c

  unfoldable pub claim : ℕ → ℕ → ℕ → List ℕ → Chain e → Result (Chain e)
  claim sender ctoken amount proof c = do
    must_have_signed sender c
    on_storage (claim_one v.keccak256 sender ctoken amount proof) c

  unfoldable pub multi_claim : ℕ → List ℕ → List ℕ → List (List ℕ) → Chain e → Result (Chain e)
  multi_claim sender ctokens amounts proofs c = do
    must_have_signed sender c
    on_storage (claim_many v.keccak256 sender ctokens amounts proofs) c

  unfoldable pub redeem : ℕ → ℕ → ℕ → Chain e → Result (Chain e)
  redeem sender ctoken amount c = do must_have_signed sender c; redeem_one sender ctoken amount c

  unfoldable pub multi_redeem : ℕ → List ℕ → List ℕ → Chain e → Result (Chain e)
  multi_redeem sender ctokens amounts c = do
    must_have_signed sender c
    redeem_many sender ctokens amounts c

  unfoldable pub sign_and_claim :
      ℕ → Bytes → List ℕ → List ℕ → List (List ℕ) → Chain e → Result (Chain e)
  sign_and_claim sender signature ctokens amounts proofs c = do
    c' ← on_storage (sign_one sender signature) c
    on_storage (claim_many v.keccak256 sender ctokens amounts proofs) c'

  unfoldable pub claim_and_redeem : ℕ → List ℕ → List ℕ → List (List ℕ) → Chain e → Result (Chain e)
  claim_and_redeem sender ctokens amounts proofs c = do
    must_have_signed sender c
    c' ← on_storage (claim_many v.keccak256 sender ctokens amounts proofs) c
    redeem_many sender ctokens amounts c'

  unfoldable pub sign_and_claim_and_redeem :
      ℕ → Bytes → List ℕ → List ℕ → List ℕ → List (List ℕ) → Chain e → Result (Chain e)
  sign_and_claim_and_redeem sender signature ctokens to_claim to_redeem proofs c = do
    must_not_have_signed sender c
    c' ← on_storage (sign_one sender signature) c
    c'' ← on_storage (claim_many v.keccak256 sender ctokens to_claim proofs) c'
    redeem_many sender ctokens to_redeem c''
