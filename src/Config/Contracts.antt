-- ===== src/Config/Contracts.antt =====
-- test/integration/setup/loadContracts.ts: the contracts that the proposals run with, by their
-- addresses; an entry whose artifact is unknown has none.
use tribe.Base.{
  ◌≡◌, refl, Bool, true, false, not, ◌&&◌, ◌||◌, Option, none, some, String, [], ◌∷◌, any, str_eq,
  if◌then◌else◌, arith,
}
use tribe.Js.{Object, get, put, get-put}
use tribe.Types.{ContractConfig, NamedAddresses}
use tribe.Config.Holders.{mainnet_contracts_config}

-- `entry[1].artifactName != 'unknown'`
unfoldable pub has_artifact : ContractConfig → Bool
has_artifact entry = not (str_eq entry.artifact_name "unknown")

-- `Object.fromEntries` over the entries that the filter leaves.
unfoldable pub collect_contracts : Object ContractConfig → NamedAddresses → NamedAddresses
collect_contracts [] contracts = contracts
collect_contracts ((name, entry) ∷ entries) contracts =
    collect_contracts entries
      (if has_artifact entry then put contracts name entry.address else contracts)

unfoldable pub get_all_contracts : NamedAddresses
get_all_contracts = collect_contracts mainnet_contracts_config []

abbrev pub is_some : Option String → Bool
is_some none = false
is_some (some x) = true

-- Whether the table has an entry of the name with an artifact.
unfoldable pub has_contract : Object ContractConfig → String → Bool
has_contract entries name = any (λ e. str_eq e.0 name && has_artifact e.1) entries

is_some-put :
    (o : NamedAddresses) (k j v : String)
    → is_some (get (put o k v) j) ≡ (str_eq k j || is_some (get o j))
is_some-put o k j v = ground (arith, get-put o k j v)

collect_contracts-get :
    (entries : Object ContractConfig) (o : NamedAddresses) (name : String)
    → is_some (get (collect_contracts entries o) name)
      ≡ (has_contract entries name || is_some (get o name))
unfolding collect_contracts has_contract
collect_contracts-get [] o name = refl
collect_contracts-get ((k, entry) ∷ entries) o name = ground (
  arith,
  collect_contracts-get entries (if has_artifact entry then put o k entry.address else o) name,
  is_some-put o k name entry.address,
)

-- There is a contract of a name exactly where the table has an entry for it with an artifact.
pub get_all_contracts-get :
    (name : String)
    → is_some (get get_all_contracts name) ≡ has_contract mainnet_contracts_config name
unfolding get_all_contracts get
get_all_contracts-get name = ground (arith, collect_contracts-get mainnet_contracts_config [] name)
