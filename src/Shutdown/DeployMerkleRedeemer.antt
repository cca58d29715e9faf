-- ===== src/Shutdown/DeployMerkleRedeemer.antt =====
-- scripts/shutdown/deployMerkleRedeemer.ts: it reads rates and roots, checks them, and hands them
-- to the constructor of RariMerkleRedeemer.sol in the order of the files.
use tribe.Base.{
  ℕ, ◌≡◌, refl, ◌↔◌, Bool, true, false, not, ◌&&◌, ◌||◌, Option, none, some, List, [], ◌∷◌, map,
  String, Result, ok, err, ◌>>=◌, ◌>>◌, require, length, any, str_eq, ◌==◌, if◌then◌else◌, arith,
}
use tribe.Redeemer.{Redeemer, constructor}
use tribe.Js.{Object, values, argument}
use tribe.Shutdown.CTokens.{c_tokens}

-- A value of a JSON file. Only texts are meant to stand in the two files.
pub data Json : Type 0 where
  string : String → Json
  other : Json

-- A callback `(entry) => { test; }` has no `return`, so it gives `undefined`, which is falsy.
unfoldable pub discarded : Bool → Bool
discarded test = false

-- What the callbacks compute: `starts_with_0x(key) && key.length == 42`, over the two tests.
pub record KeyTests : Type 0 where
  pub starts_with_0x : String → Bool
  pub has_42_characters : String → Bool

abbrev is_string : Json → Bool
is_string (string s) = true
is_string other = false

abbrev or_default : Option String → String → String
or_default none d = d
or_default (some a) d = if str_eq a "" then d else a

unfoldable pub rates_filename : List String → String
rates_filename argv = or_default (argument argv 2) "./scripts/shutdown/data/sample/rates.json"

unfoldable pub roots_filename : List String → String
roots_filename argv = or_default (argument argv 3) "./scripts/shutdown/data/sample/roots.json"

abbrev equals : Option String → String → Bool
equals none s = false
equals (some a) s = str_eq a s

unfoldable pub enable_forking : List String → Bool
enable_forking argv = not (equals (argument argv 4) "false")

-- The six checks, in order. The third and the sixth read the roots, and the fifth reads the rates
-- again.
unfoldable pub sanity_check : KeyTests → Object Json → Object Json → Result (Unit {0})
sanity_check k rates roots = do
  require (length rates == 27) "Rates should be an object with 27 entries."
  require (not (any (λ e. discarded (not (k.starts_with_0x e.0 && k.has_42_characters e.0))) rates))
      "Not all keys for rates file are valid addresses"
  require (not (any (λ e. discarded (not (is_string e.1))) roots))
      "Not all values for rates file are strings."
  require (length roots == 27) "Roots should be an object with 27 entries."
  require (not (any (λ e. discarded (not (k.starts_with_0x e.0 && k.has_42_characters e.0))) rates))
      "Not all keys for roots file are valid addresses"
  require (not (any (λ e. discarded (not (is_string e.1))) roots))
      "Not all values for roots file are strings."

-- What a run ends in: its usage, or a contract.
pub data Outcome : Type 0 where
  usage : Outcome
  deployed : Redeemer → Outcome

-- Both branches of the choice of a provider throw.
unfoldable pub provider : Bool → Result (Unit {0})
provider forking =
    if not forking
    then err "Please provide the url for a mainnet node / endpoint here."
    else err "Please provide the url for an instance of anvil forked from mainnet here."

-- ethers encodes an address and a 32-byte text, and a rate's text or other value.
pub record Encoder : Type 0 where
  pub to_address : String → ℕ
  pub to_uint256 : Json → ℕ
  pub to_bytes32 : Json → ℕ

-- `rariMerkleRedeemerFactory.deploy(fei, cTokens, ratesArray, rootsArray)`
unfoldable pub deploy : Encoder → String → Object Json → Object Json → Result Redeemer
deploy e fei rates roots =
    constructor (e.to_address fei) (map e.to_address c_tokens) (map e.to_uint256 (values rates))
      (map e.to_bytes32 (values roots))

abbrev is_set : Option String → Bool
is_set none = false
is_set (some _) = true

-- A deployment to the mainnet reads the key of its wallet from the environment.
unfoldable pub private_key_check : Bool → Option String → Result (Unit {0})
private_key_check forking key =
    require (forking || is_set key)
      "MAINNET_PRIVATE_KEY not set, please export env or set in .env file."

unfoldable pub run :
    KeyTests
    → Encoder
    → String
    → Option String
    → (String → Result (Object Json))
    → List String
    → Result Outcome
run k e fei key read_json argv = do
  rates ← read_json (rates_filename argv)
  roots ← read_json (roots_filename argv)
  sanity_check k rates roots
  provider (enable_forking argv)
  private_key_check (enable_forking argv) key
  r ← deploy e fei rates roots
  ok (deployed r)

unfoldable pub main :
    KeyTests
    → Encoder
    → String
    → Option String
    → (String → Result (Object Json))
    → List String
    → Result Outcome
main k e fei key read_json argv =
    if equals (argument argv 2) "help" then ok usage else run k e fei key read_json argv

never_some :
    (f : String × Json → Bool) (o : Object Json) → not (any (λ e. discarded (f e)) o) ≡ true
unfolding discarded
never_some f [] = refl
never_some f (e ∷ o) = never_some f o

-- The sanity check passes exactly the files of 27 entries each: no key and no value is looked at,
-- since the callbacks of the four other checks return nothing.
pub sanity_check_iff :
    (k : KeyTests) (rates roots : Object Json)
    → (sanity_check k rates roots ≡ ok tt) ↔ ((length rates ≡ 27) × (length roots ≡ 27))
unfolding sanity_check
sanity_check_iff k rates roots =
    let keys_pass = never_some (λ e. not (k.starts_with_0x e.0 && k.has_42_characters e.0)) rates in
    let values_pass = never_some (λ e. not (is_string e.1)) roots in
    (λ h. ground (arith, keys_pass, values_pass), λ h. ground (arith, keys_pass, values_pass))
