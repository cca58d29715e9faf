-- ===== src/Shutdown/CreateMerkleTrees.antt =====
-- scripts/shutdown/createMerkleTrees.ts: from a snapshot of balances, one Merkle tree for each
-- token, every leaf's proof checked, and the roots written to a file. The files, the tree library
-- and the hash of an entry are parameters.
use tribe.Base.{
  ℕ, Bool, true, false, not, Option, none, some, List, [], ◌∷◌, String, Result, ok, err, ◌>>=◌,
  ◌>>◌, require, ◌&&◌, length, any, str_eq, ◌==◌, if◌then◌else◌,
}
use tribe.Js.{Object, keys, get, put, spread, includes, argument}
use tribe.Shutdown.CTokens.{c_tokens}

-- merkletreejs with `{ sort: true }` over keccak256, and `solidityKeccak256` of ethers.
pub record MerkleLibrary : Type 1 where
  pub MerkleTree : Type 0
  pub make : List ℕ → MerkleTree
  pub get_root : MerkleTree → ℕ
  pub get_hex_root : MerkleTree → String
  pub get_hex_proof : MerkleTree → ℕ → List ℕ
  pub verify : MerkleTree → List ℕ → ℕ → ℕ → Bool
  -- `solidityKeccak256(['address', 'uint256'], [address, amount])`
  pub solidity_keccak256 : String → String → ℕ
  -- Whether it takes the two as an address and a uint256; it throws where it does not.
  pub can_hash : String → String → Bool

abbrev pub Balances : Type 0
Balances = Object (Object String)

-- What a run does: it prints its usage, or it writes the roots to a file.
pub data Outcome : Type 0 where
  usage : Outcome
  written : String → Object String → Outcome

abbrev is_help : Option String → Bool
is_help none = false
is_help (some a) = str_eq a "help"

-- The settings that the arguments choose.
pub record Settings : Type 0 where
  pub data_json_filename : String
  pub output_filename : String
  pub debug : Bool
  pub extra_data_json_filename : Option String

abbrev or_default : Option String → String → String
or_default none d = d
or_default (some a) d = a

abbrev is_true : Option String → Bool
is_true none = false
is_true (some a) = str_eq a "true"

unfoldable pub settings : List String → Settings
settings argv = record {
  data_json_filename = or_default (argument argv 2) "./scripts/shutdown/data/sample/snapshot.json";
  output_filename = or_default (argument argv 3) "./scripts/shutdown/data/sample/merkleRoots.json";
  debug = is_true (argument argv 4);
  extra_data_json_filename = argument argv 5;
}

-- The spread of an entry that may be missing.
abbrev pub or_empty : Option (Object String) → Object String
or_empty none = []
or_empty (some o) = o

abbrev is_missing : Option (Object String) → Bool
is_missing none = true
is_missing (some _) = false

-- One round of the merge. The message of a debug run reads the keys of an entry, and throws where
-- the entry is missing.
unfoldable pub merge_entry : Bool → String × Object String → Balances → Result Balances
merge_entry debug (key, extra) balances =
    if debug && is_missing (get balances key)
    then err "Cannot convert undefined or null to object"
    else ok (put balances key (spread (or_empty (get balances key)) extra))

unfoldable pub merge_entries : Bool → Balances → Balances → Result Balances
merge_entries debug [] balances = ok balances
merge_entries debug (e ∷ extra) balances = do
  merged ← merge_entry debug e balances
  merge_entries debug extra merged

unfoldable pub load_balances : (String → Result Balances) → Settings → Result Balances
load_balances read_json s = do
  balances ← read_json s.data_json_filename
  elim s.extra_data_json_filename [
    | none ↦ ok balances
    | some name ↦ read_json name >>= λ extra. merge_entries s.debug extra balances
  ]

unfoldable pub validate_balances : Balances → Result (Unit {0})
validate_balances balances = do
  require (length (keys balances) == 27) "Snapshot data should have 27 keys, one for each ctoken."
  require (not (any (λ key. not (includes c_tokens key)) (keys balances)))
      "Snapshot data has invalid ctoken address"

module _ (m : MerkleLibrary) where
  unfoldable pub leaves_of : Object String → List ℕ
  leaves_of [] = []
  leaves_of ((holder, amount) ∷ rest) = m.solidity_keccak256 holder amount ∷ leaves_of rest

  unfoldable pub can_hash_all : Object String → Bool
  can_hash_all [] = true
  can_hash_all ((holder, amount) ∷ rest) = m.can_hash holder amount && can_hash_all rest

  unfoldable pub check_leaves : m.MerkleTree → List ℕ → Result (Unit {0})
  check_leaves tree [] = ok tt
  check_leaves tree (leaf ∷ leaves) = do
    require (m.verify tree (m.get_hex_proof tree leaf) leaf (m.get_root tree))
        "Proof for leaf failed"
    check_leaves tree leaves

  unfoldable pub tree_of : Object String → m.MerkleTree
  tree_of data_of_token = m.make (leaves_of data_of_token)

  -- The loop over the tokens, which collects the roots.
  unfoldable pub build_roots : Balances → Object String → Result (Object String)
  build_roots [] hex_roots = ok hex_roots
  build_roots ((token, holders) ∷ rest) hex_roots = do
    require (can_hash_all holders) "invalid value for type"
    check_leaves (tree_of holders) (leaves_of holders)
    build_roots rest (put hex_roots token (m.get_hex_root (tree_of holders)))

  unfoldable pub create : (String → Result Balances) → Settings → Result Outcome
  create read_json s = do
    balances ← load_balances read_json s
    validate_balances balances
    hex_roots ← build_roots balances []
    ok (written s.output_filename hex_roots)

  unfoldable pub main : (String → Result Balances) → List String → Result Outcome
  main read_json argv =
      if is_help (argument argv 2) then ok usage else create read_json (settings argv)
