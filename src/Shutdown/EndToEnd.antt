-- ===== src/Shutdown/EndToEnd.antt =====
-- From the snapshot to the claim: the proofs that createMerkleTrees.ts makes are those that
-- RariMerkleRedeemer.sol accepts, once it is deployed with the published roots.
use mathlib.Core.Path.{subst₂}
use mathlib.Core.Option.{some-injective}
use tribe.Base.{
  ℕ, suc, ◌≡◌, refl, sym, ap, ◌∙◌, subst, inl, inr, true, some, List, [], ◌∷◌, map, String, ok,
  >>=-ok, require-then-ok, get_elem?, get_elem?-map, Distinct, Bool-cases, str_eq, str_eq_iff,
  if◌then◌else◌, ◌==◌, ==_iff, update₂,
}
use tribe.Evm.{Erc20}
use tribe.Redeemer.{Redeemer, constructor, claim_one, verify, leaf_hash, has_signed}
use tribe.Redeemer.Calls.{Env, Chain, claim}
use tribe.Redeemer.Trace.{History}
use tribe.Redeemer.Claims.{History-IsSound}
use tribe.Redeemer.Deployment.{constructor-root_at, constructor-IsSound}
use tribe.Js.{Object, keys, values, get, AllEntries-get}
use tribe.Shutdown.CTokens.{c_tokens}
use tribe.Shutdown.CreateMerkleTrees.{MerkleLibrary, Balances, leaves_of, tree_of}
use tribe.Shutdown.Roots.{roots_of, LeavesVerify, TreeVerifies, IsPublished}

-- What ethers and merkletreejs promise of the contract's view of their values: an entry's hash is
-- that of its packed encoding, a root in hex is the root, and with sorted pairs the tree's check
-- is OpenZeppelin's.
pub record Agrees (m : MerkleLibrary) (v : Env) : Type 0 where
  pub to_address : String → ℕ
  pub to_uint256 : String → ℕ
  pub to_bytes32 : String → ℕ
  pub leaves :
      (holder amount : String)
      → m.solidity_keccak256 holder amount
        ≡ leaf_hash v.keccak256 (to_address holder) (to_uint256 amount)
  pub roots : (tree : m.MerkleTree) → to_bytes32 (m.get_hex_root tree) ≡ m.get_root tree
  pub proofs :
      (tree : m.MerkleTree) (proof : List ℕ) (leaf root : ℕ)
      → m.verify tree proof leaf root ≡ verify v.keccak256 proof root leaf

-- The place of a token: its root stands at the same place among the roots.
place_of :
    (m : MerkleLibrary) (balances : Balances) (token : String) (holders : Object String)
    → get balances token ≡ some holders
    → (i : ℕ) × (get_elem? (keys balances) i ≡ some token)
      × (get_elem? (values (roots_of m balances)) i ≡ some (m.get_hex_root (tree_of m holders)))
unfolding get
place_of m [] token holders h = cc
place_of m ((t, hs) ∷ rest) token holders h =
    let found : (if str_eq t token then some hs else get rest token) ≡ some holders = h in
    elim (Bool-cases (str_eq t token)) [
      | inl same ↦ (
        0,
        ap some ((str_eq_iff t token).0 same),
        ap (λ x. some (m.get_hex_root (tree_of m x)))
            (some-injective hs holders (rw same at found)),
      )
      | inr other ↦
          let (i, k, r) = place_of m rest token holders (rw other at found) in (suc i, k, r)
    ]

leaf_verifies :
    (m : MerkleLibrary) (tree : m.MerkleTree) (holders : Object String) (holder amount : String)
    → LeavesVerify m tree (leaves_of m holders)
    → get holders holder ≡ some amount
    → let leaf = m.solidity_keccak256 holder amount in
      m.verify tree (m.get_hex_proof tree leaf) leaf (m.get_root tree) ≡ true
unfolding get leaves_of
leaf_verifies m tree [] holder amount all h = cc
leaf_verifies m tree ((k, n) ∷ rest) holder amount all h =
    let found : (if str_eq k holder then some n else get rest holder) ≡ some amount = h in
    elim (Bool-cases (str_eq k holder)) [
      | inl same ↦
          subst₂
            (λ x y.
              let leaf = m.solidity_keccak256 x y in
              m.verify tree (m.get_hex_proof tree leaf) leaf (m.get_root tree) ≡ true)
            ((str_eq_iff k holder).0 same) (some-injective n amount (rw same at found)) all.0
      | inr other ↦ leaf_verifies m tree rest holder amount all.1 (rw other at found)
    ]

keys-roots_of :
    (m : MerkleLibrary) (balances : Balances) → keys (roots_of m balances) ≡ keys balances
keys-roots_of m [] = refl
keys-roots_of m (e ∷ rest) = ap (λ ks. e.0 ∷ ks) (keys-roots_of m rest)

module _ (m : MerkleLibrary) (v : Env) (e : Erc20) (a : Agrees m v) where
  -- The root that the contract stores for a token is that of the token's tree.
  root_at :
      (balances : Balances) (roots : Object String) (base : ℕ) (rates : List ℕ) (r : Redeemer)
      (token : String) (holders : Object String)
      → IsPublished m balances roots
      → keys roots ≡ c_tokens
      → Distinct (map a.to_address c_tokens)
      → constructor base (map a.to_address c_tokens) rates (map a.to_bytes32 (values roots)) ≡ ok r
      → get balances token ≡ some holders
      → r.merkle_roots (a.to_address token) ≡ m.get_root (tree_of m holders)
  root_at balances roots base rates r token holders p same d deployed h =
      let (i, at_key, at_root) = place_of m balances token holders h in
      let tree = tree_of m holders in
      let ordered : keys balances ≡ c_tokens =
        sym (keys-roots_of m balances) ∙ ap keys (sym p.in_order) ∙ same in
      let at_token = subst (λ ks. get_elem? ks i ≡ some token) ordered at_key in
      let at_value =
        subst (λ o. get_elem? (values o) i ≡ some (m.get_hex_root tree)) (sym p.in_order) at_root in
      constructor-root_at base (map a.to_address c_tokens) rates (map a.to_bytes32 (values roots)) r
        i (a.to_address token) (a.to_bytes32 (m.get_hex_root tree)) deployed d
        (get_elem?-map a.to_address c_tokens i token at_token)
        (get_elem?-map a.to_bytes32 (values roots) i (m.get_hex_root tree) at_value)
      ∙ a.roots tree

  -- A contract that is deployed with the roots of a published snapshot, whose tokens stand in the
  -- order of the deployment's own list of distinct tokens, lets every holder of the snapshot claim:
  -- whatever transactions have run since, a holder who has signed and has no claim on the token
  -- yet, and who sends the amount of the snapshot with the proof of the published tree, gets
  -- exactly that amount recorded, and nothing else changes.
  pub published_claim :
      (balances : Balances) (roots : Object String) (base : ℕ) (rates : List ℕ) (c d : Chain e)
      (token : String) (holders : Object String) (holder amount : String)
      → IsPublished m balances roots
      → keys roots ≡ c_tokens
      → Distinct (map a.to_address c_tokens)
      → constructor base (map a.to_address c_tokens) rates (map a.to_bytes32 (values roots))
        ≡ ok c.redeemer
      → History v e c d
      → get balances token ≡ some holders
      → get holders holder ≡ some amount
      → has_signed v.keccak256 (a.to_address holder) d.redeemer ≡ true
      → d.redeemer.claims (a.to_address holder) (a.to_address token) ≡ 0
      → claim v e
          (a.to_address holder)
          (a.to_address token)
          (a.to_uint256 amount)
          (m.get_hex_proof (tree_of m holders) (m.solidity_keccak256 holder amount))
          d
        ≡ ok (record d {
          redeemer = record d.redeemer {
            claims =
                update₂ d.redeemer.claims
                  (a.to_address holder)
                  (a.to_address token)
                  (a.to_uint256 amount);
          };
        })
  unfolding claim claim_one
  published_claim balances roots base rates c d token holders holder amount p same distinct deployed
        past ht hh signed unclaimed =
      let tree = tree_of m holders in
      let leaf = m.solidity_keccak256 holder amount in
      let user = a.to_address holder in
      let stored : d.redeemer.merkle_roots (a.to_address token) ≡ m.get_root tree =
        (History-IsSound v e c.redeemer.merkle_roots c.redeemer.ctoken_exchange_rates past (
            constructor-IsSound v base (map a.to_address c_tokens) rates
              (map a.to_bytes32 (values roots)) c.redeemer deployed)).same_roots
          (a.to_address token)
        ∙ root_at balances roots base rates c.redeemer token holders p same distinct deployed ht in
      let checked =
        sym (a.proofs tree (m.get_hex_proof tree leaf) leaf (m.get_root tree))
        ∙ leaf_verifies m tree holders holder amount
            (AllEntries-get (TreeVerifies m) balances token holders p.trees ht).1 hh in
      let accepted : verify v.keccak256 (m.get_hex_proof tree leaf)
            (d.redeemer.merkle_roots (a.to_address token))
            (leaf_hash v.keccak256 user (a.to_uint256 amount))
          ≡ true =
        rw (stored, ← a.leaves) checked in
      require-then-ok (has_signed v.keccak256 user d.redeemer) _ _ signed (
        >>=-ok (claim_one v.keccak256 user (a.to_address token) (a.to_uint256 amount) _ d.redeemer)
          _ _
          (require-then-ok (d.redeemer.claims user (a.to_address token) == 0) _ _
            ((==_iff _ _).1 unclaimed)
            (require-then-ok (verify v.keccak256 (m.get_hex_proof tree leaf) _ _) _ _ accepted
              refl))
          refl)
