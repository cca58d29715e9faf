-- ===== src/Shutdown/Tests.antt =====
-- A snapshot of two holders for each of the 27 tokens, through the script, the deployment and a
-- claim, over a tree library and a hash that run; and the theorems at these inputs.
use Prim.Native.Char.{code}
use tribe.Base.{
  ℕ, zero, suc, ◌+◌, ◌-◌, ◌*◌, ◌^◌, ◌≡◌, refl, ap, true, none, some, List, [], ◌∷◌, map, String,
  Result, ok, err, Distinct, distinct_sound, str_eq_iff, ==_iff, All, length, str_eq, ◌==◌,
  if◌then◌else◌, update, update₂,
}
use tribe.Evm.{Bytes, encode_packed}
use tribe.Evm.Ledger.{ledger}
use tribe.Redeemer.{constructor, process_proof, verify, leaf_hash, has_signed}
use tribe.Redeemer.Calls.{Env, Chain, claim, sign_one}
use tribe.Redeemer.Calls
use tribe.Redeemer.Trace.{Call, here, call, transact}
use tribe.Redeemer.Deployment.{deployed}
use tribe.Js.{Object, keys, values, get, includes, AllEntries}
use tribe.Shutdown.CTokens.{c_tokens}
use tribe.Shutdown.CreateMerkleTrees.{
  MerkleLibrary, Balances, written, Settings, load_balances, can_hash_all, leaves_of, tree_of,
  create,
}
use tribe.Shutdown.Roots.{IsPublished, TreeVerifies, roots_of, create-IsPublished, create_succeeds}
use tribe.Shutdown.EndToEnd.{Agrees, published_claim}

abbrev total : Bytes → ℕ
total [] = 0
total (b ∷ bs) = b + total bs

-- Texts as numbers: by their characters, by their decimal digits, and by their length.
abbrev characters : ℕ → String → ℕ
characters n String.[] = n
characters n (String.◌∷◌ c s) = characters (n * 256 + code c) s

abbrev decimal : ℕ → String → ℕ
decimal n String.[] = n
decimal n (String.◌∷◌ c s) = decimal (n * 10 + (code c - 48)) s

abbrev size : String → ℕ
size String.[] = 0
size (String.◌∷◌ c s) = suc (size s)

abbrev strokes : ℕ → String
strokes zero = String.[]
strokes (suc n) = String.◌∷◌ "1" (strokes n)

pub size-strokes : (n : ℕ) → size (strokes n) ≡ n
size-strokes zero = refl
size-strokes (suc n) = ap suc (size-strokes n)

-- Trees of at most two leaves.
abbrev root : List ℕ → ℕ
root [] = 0
root (a ∷ []) = a
root (a ∷ b ∷ rest) = process_proof total (b ∷ []) a

abbrev sibling : List ℕ → ℕ → List ℕ
sibling [] leaf = []
sibling (a ∷ []) leaf = []
sibling (a ∷ b ∷ rest) leaf = if leaf == a then b ∷ [] else a ∷ []

abbrev trees : MerkleLibrary
trees = record {
  MerkleTree = List ℕ;
  make = λ leaves. leaves;
  get_root = root;
  get_hex_root = λ tree. strokes (root tree);
  get_hex_proof = sibling;
  verify = λ tree proof leaf r. verify total proof r leaf;
  solidity_keccak256 = λ holder amount. leaf_hash total (characters 0 holder) (decimal 0 amount);
  can_hash = λ holder amount. true;
}

abbrev first_byte : Bytes → Result ℕ
first_byte [] = err "ECDSA: invalid signature length"
first_byte (b ∷ bs) = ok b

abbrev env : Env
env = record { keccak256 = total; recover = λ h s. first_byte s; message_hash = 1; this = 99 }

abbrev agrees : Agrees trees env
agrees = record {
  to_address = characters 0;
  to_uint256 = decimal 0;
  to_bytes32 = size;
  leaves = λ holder amount. refl;
  roots = λ tree. size-strokes (root tree);
  proofs = λ tree proof leaf r. refl;
}

abbrev holders : Object String
holders = ("0xa1", "40") ∷ ("0xb2", "7") ∷ []

abbrev snapshot : Balances
snapshot = map (λ t. (t, holders)) c_tokens

abbrev read_json : String → Result Balances
read_json name = if str_eq name "snapshot.json" then ok snapshot else err "ENOENT"

abbrev chosen : Settings
chosen = record {
  data_json_filename = "snapshot.json";
  output_filename = "roots.json";
  debug = true;
  extra_data_json_filename = none;
}

loaded : load_balances read_json chosen ≡ ok snapshot
unfolding load_balances
loaded = refl

snapshot-Distinct : Distinct (keys snapshot)
unfolding c_tokens
snapshot-Distinct = distinct_sound str_eq (λ x y e. (str_eq_iff x y).1 e) (keys snapshot) refl

snapshot_size : length (keys snapshot) ≡ 27
unfolding c_tokens
snapshot_size = refl

snapshot_known : All (λ k. includes c_tokens k ≡ true) (keys snapshot)
unfolding c_tokens
snapshot_known = search

snapshot_trees : AllEntries (TreeVerifies trees) snapshot
unfolding c_tokens can_hash_all leaves_of tree_of leaf_hash encode_packed verify
snapshot_trees = search

addresses-Distinct : Distinct (map (characters 0) c_tokens)
unfolding c_tokens
addresses-Distinct =
    distinct_sound ◌==◌ (λ x y e. (==_iff x y).1 e) (map (characters 0) c_tokens) refl

create_succeeds_example :
    create trees read_json chosen ≡ ok (written "roots.json" (roots_of trees snapshot))
create_succeeds_example =
    create_succeeds trees read_json chosen snapshot loaded snapshot-Distinct snapshot_size
      snapshot_known snapshot_trees

runs : create trees read_json chosen ≡ ok (written "roots.json" (roots_of trees snapshot))
runs =
    create_succeeds trees read_json chosen snapshot loaded snapshot-Distinct snapshot_size
      snapshot_known snapshot_trees

published : IsPublished trees snapshot (roots_of trees snapshot)
published = record {
  tokens = snapshot_size;
  known = snapshot_known;
  trees = snapshot_trees;
  in_order = refl;
}

create-IsPublished_example : IsPublished trees snapshot (roots_of trees snapshot)
create-IsPublished_example =
    create-IsPublished trees read_json chosen snapshot "roots.json" (roots_of trees snapshot) loaded
      snapshot-Distinct runs

abbrev tokens : List ℕ
tokens = map (characters 0) c_tokens

abbrev rates : List ℕ
rates = map (λ t. 10 ^ 18) tokens

abbrev roots : List ℕ
roots = map size (values (roots_of trees snapshot))

abbrev start : Chain ledger
start = record { redeemer = deployed 100 tokens rates roots; world = λ t u. 0 }

constructed : constructor 100 tokens rates roots ≡ ok start.redeemer
unfolding constructor c_tokens leaves_of tree_of leaf_hash encode_packed process_proof
constructed = refl

-- The holder of the second leaf.
abbrev holder : ℕ
holder = characters 0 "0xb2"

abbrev signed : Chain ledger
signed = record {
  redeemer = record start.redeemer {
    user_signatures = update start.redeemer.user_signatures holder (holder ∷ []);
  };
  world = λ t u. 0;
}

signs : transact env ledger holder (Call.sign (holder ∷ [])) start ≡ ok signed
unfolding transact Calls.sign sign_one has_signed
signs = refl

has_signed-holder : has_signed total holder signed.redeemer ≡ true
unfolding has_signed
has_signed-holder = refl

abbrev token : String
token = "0xbb025d470162cc5ea24daf7d4566064ee7f5f111"

token_holders : get snapshot token ≡ some holders
unfolding get c_tokens
token_holders = refl

amount_of_holder : get holders "0xb2" ≡ some "7"
unfolding get
amount_of_holder = refl

same_order : keys (roots_of trees snapshot) ≡ c_tokens
unfolding c_tokens
same_order = refl

published_claim_example :
    claim env ledger holder
      (characters 0 token)
      7
      (sibling (tree_of trees holders) (leaf_hash total holder 7))
      signed
    ≡ ok (record signed {
      redeemer = record signed.redeemer {
        claims = update₂ signed.redeemer.claims holder (characters 0 token) 7;
      };
    })
published_claim_example =
    published_claim trees env ledger agrees snapshot (roots_of trees snapshot) 100 rates start
      signed token holders "0xb2" "7" published same_order addresses-Distinct constructed
      (call here holder (Call.sign (holder ∷ [])) signs) token_holders amount_of_holder
      has_signed-holder refl
