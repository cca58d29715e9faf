-- ===== src/Redeemer.antt =====
-- contracts/shutdown/fuse/RariMerkleRedeemer.sol over MultiMerkleRedeemer.sol: the storage, the
-- modifiers and each function. The OpenZeppelin proof check that it calls stands in
-- scripts/shutdown/data/prod/RariMerkleRedeemer_flattened.sol.
pub mod Calls
pub mod Trace
pub mod Storage
pub mod Claims
pub mod Payment
pub mod Deployment
pub mod Deployable
mod Tests
use tribe.Base.{
  ℕ, ◌/◌, ◌^◌, Bool, not, List, [], ◌∷◌, ◌++◌, Result, ok, ◌>>=◌, ◌>>◌, require, length, ltb, ◌==◌,
  if◌then◌else◌, update, update₂, checked_mul,
}
use tribe.Evm.{Bytes, big_endian, encode_packed}

-- The storage of `MultiMerkleRedeemer`.
pub record Redeemer : Type 0 where
  pub base_token : ℕ
  pub merkle_roots : ℕ → ℕ
  pub ctoken_exchange_rates : ℕ → ℕ
  pub user_signatures : ℕ → Bytes
  pub redemptions : ℕ → ℕ → ℕ
  pub claims : ℕ → ℕ → ℕ

abbrev pub unset : Redeemer
unset = record {
  base_token = 0;
  merkle_roots = λ t. 0;
  ctoken_exchange_rates = λ t. 0;
  user_signatures = λ u. [];
  redemptions = λ u t. 0;
  claims = λ u t. 0;
}

configure_rates : List ℕ → List ℕ → Redeemer → Result Redeemer
configure_rates (t ∷ ts) (x ∷ xs) r = do
  require (ltb (10 ^ 10) x)
      "Exchange rate must be greater than 1e10. Did you forget to multiply by 1e18?"
  configure_rates ts xs (record r { ctoken_exchange_rates = update r.ctoken_exchange_rates t x })
configure_rates _ _ r = ok r

-- `_configureExchangeRates`
configure_exchange_rates : List ℕ → List ℕ → Redeemer → Result Redeemer
unfolding configure_rates
configure_exchange_rates ctokens rates r = do
  require (length ctokens == 27) "Must provide exactly 27 exchange rates."
  require (length ctokens == length rates) "Exchange rates must be provided for each cToken"
  configure_rates ctokens rates r

configure_roots : List ℕ → List ℕ → Redeemer → Result Redeemer
configure_roots (t ∷ ts) (x ∷ xs) r = do
  require (not (x == 0)) "Merkle root must be non-zero"
  configure_roots ts xs (record r { merkle_roots = update r.merkle_roots t x })
configure_roots _ _ r = ok r

-- `_configureMerkleRoots`
configure_merkle_roots : List ℕ → List ℕ → Redeemer → Result Redeemer
unfolding configure_roots
configure_merkle_roots ctokens roots r = do
  require (length ctokens == 27) "Must provide exactly 27 merkle roots"
  require (length ctokens == length roots) "Merkle roots must be provided for each cToken"
  configure_roots ctokens roots r

-- `_configureBaseToken`
configure_base_token : ℕ → Redeemer → Result Redeemer
configure_base_token token r = do
  require (not (token == 0)) "Base token must be non-zero"
  ok (record r { base_token = token })

unfoldable pub constructor : ℕ → List ℕ → List ℕ → List ℕ → Result Redeemer
unfolding configure_exchange_rates configure_merkle_roots configure_base_token
constructor token ctokens rates roots = do
  r ← configure_exchange_rates ctokens rates unset
  r' ← configure_merkle_roots ctokens roots r
  configure_base_token token r'

unfoldable pub preview_redeem : Redeemer → ℕ → ℕ → Result ℕ
preview_redeem r ctoken amount = do
  product ← checked_mul (r.ctoken_exchange_rates ctoken) amount
  ok (product / 10 ^ 18)

module _ (keccak256 : Bytes → ℕ) where
  efficient_hash : ℕ → ℕ → ℕ
  efficient_hash a b = keccak256 (big_endian 32 a ++ big_endian 32 b)

  hash_pair : ℕ → ℕ → ℕ
  unfolding efficient_hash
  hash_pair a b = if ltb a b then efficient_hash a b else efficient_hash b a

  -- `MerkleProof.processProofCalldata`
  unfoldable pub process_proof : List ℕ → ℕ → ℕ
  unfolding hash_pair
  process_proof [] computed_hash = computed_hash
  process_proof (p ∷ ps) computed_hash = process_proof ps (hash_pair computed_hash p)

  -- `MerkleProof.verifyCalldata`
  unfoldable pub verify : List ℕ → ℕ → ℕ → Bool
  unfolding process_proof
  verify proof root leaf = process_proof proof leaf == root

  unfoldable pub leaf_hash : ℕ → ℕ → ℕ
  leaf_hash account amount = keccak256 (encode_packed account amount)

  -- The test of the modifiers `hasSigned` and `hasNotSigned`.
  unfoldable pub has_signed : ℕ → Redeemer → Bool
  has_signed sender r =
      not (keccak256 (r.user_signatures sender) == keccak256 (r.user_signatures 0))

  -- `_claim`
  unfoldable pub claim_one : ℕ → ℕ → ℕ → List ℕ → Redeemer → Result Redeemer
  claim_one sender ctoken amount proof r = do
    require (r.claims sender ctoken == 0) "User has already claimed for this cToken."
    require (verify proof (r.merkle_roots ctoken) (leaf_hash sender amount))
        "Merkle proof not valid."
    ok (record r { claims = update₂ r.claims sender ctoken amount })

  unfoldable pub claim_each : ℕ → List ℕ → List ℕ → List (List ℕ) → Redeemer → Result Redeemer
  claim_each sender (t ∷ ts) (n ∷ ns) (p ∷ ps) r = do
    r' ← claim_one sender t n p r
    claim_each sender ts ns ps r'
  claim_each _ _ _ _ r = ok r

  -- `_multiClaim`
  unfoldable pub claim_many : ℕ → List ℕ → List ℕ → List (List ℕ) → Redeemer → Result Redeemer
  unfolding claim_each
  claim_many sender ctokens amounts proofs r = do
    require (length ctokens == length amounts) "Number of cTokens and amounts must match"
    require (length ctokens == length proofs) "Number of cTokens and merkle proofs must match"
    claim_each sender ctokens amounts proofs r
