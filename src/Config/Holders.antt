-- ===== src/Config/Holders.antt =====
-- protocol-configuration: the contracts put together, and the addresses that
-- test/integration/setup/index.ts finds for the holders of each role.
use mathlib.Core.Option.{some-injective}
use tribe.Base.{
  ◌≡◌, refl, Bool, true, false, Option, none, some, List, [], ◌∷◌, ◌++◌, map, String, All, str_eq,
  str_eq_iff, ◌∙◌, ◌≢◌, ◌||◌, ◌&&◌, Bool-cases, inl, inr, subst, Distinct, distinct_sound, arith,
}
use tribe.Js.{Object, get, put, spread, get-put, keys, includes, AllEntries, AllEntries-get}
use tribe.Types.{ContractConfig, NamedAddresses}
use tribe.Config.Permissions.{permissions_config}
use tribe.Config.MainnetOne.{
  contracts_first, contracts_second, contracts_third, contracts_fourth, contracts_fifth,
}
use tribe.Config.MainnetTwo.{
  contracts_sixth, contracts_seventh, contracts_eighth, contracts_ninth, contracts_tenth,
}
use tribe.Config.MainnetThree.{
  contracts_eleventh, contracts_twelfth, contracts_thirteenth, contracts_fourteenth,
  contracts_fifteenth,
}
use tribe.Config.MainnetFour.{
  contracts_sixteenth, contracts_seventeenth, contracts_eighteenth, contracts_nineteenth,
}

-- `MainnetContractsConfig`
unfoldable pub mainnet_contracts_config : Object ContractConfig
mainnet_contracts_config =
    contracts_first ++ contracts_second ++ contracts_third ++ contracts_fourth ++ contracts_fifth
    ++ contracts_sixth ++ contracts_seventh ++ contracts_eighth ++ contracts_ninth
    ++ contracts_tenth ++ contracts_eleventh ++ contracts_twelfth ++ contracts_thirteenth
    ++ contracts_fourteenth ++ contracts_fifteenth ++ contracts_sixteenth ++ contracts_seventeenth
    ++ contracts_eighteenth ++ contracts_nineteenth

-- The loop of `getAllContractAddresses`, which files the address of every entry.
unfoldable pub file_addresses : Object ContractConfig → NamedAddresses → NamedAddresses
file_addresses [] contracts = contracts
file_addresses ((name, entry) ∷ addresses) contracts =
    file_addresses addresses (put contracts name entry.address)

unfoldable pub get_all_contract_addresses : NamedAddresses
get_all_contract_addresses = file_addresses mainnet_contracts_config []

-- `{ ...getAllContractAddresses(), ...namedContractsToNamedAddresses(existingContracts) }`
unfoldable pub after_upgrade_addresses : NamedAddresses → NamedAddresses
after_upgrade_addresses existing = spread get_all_contract_addresses existing

abbrev pub AccessRights : Type 0
AccessRights = Object (List (Option String))

-- The callback over the roles: the addresses of a role's contracts, undefined where a name has none.
unfoldable pub file_roles : NamedAddresses → Object (List String) → AccessRights → AccessRights
file_roles after_upgrade [] rights = rights
file_roles after_upgrade ((role, contracts) ∷ roles) rights =
    file_roles after_upgrade roles (put rights role (map (get after_upgrade) contracts))

unfoldable pub get_access_control_mapping : NamedAddresses → AccessRights
get_access_control_mapping after_upgrade = file_roles after_upgrade permissions_config (
    ("minter", [])
    ∷ ("burner", [])
    ∷ ("pcvController", [])
    ∷ ("governor", [])
    ∷ ("guardian", [])
    ∷ [])

abbrev pub is_defined {ℓ} : {A : Type ℓ} → Option A → Bool
is_defined none = false
is_defined (some _) = true

is_defined-put {ℓ} :
    {V : Type ℓ} (o : Object V) (k j : String) (v : V)
    → is_defined (get (put o k v) j) ≡ (str_eq k j || is_defined (get o j))
is_defined-put o k j v = ground (arith, get-put o k j v)

is_defined-file_addresses :
    (a : Object ContractConfig) (o : NamedAddresses) (j : String)
    → is_defined (get (file_addresses a o) j) ≡ (includes (keys a) j || is_defined (get o j))
unfolding file_addresses
is_defined-file_addresses [] o j = refl
is_defined-file_addresses ((k, c) ∷ a) o j =
    ground
      (arith, is_defined-file_addresses a (put o k c.address) j, is_defined-put o k j c.address)

is_defined-spread :
    (o p : NamedAddresses) (j : String)
    → is_defined (get (spread o p) j) ≡ (includes (keys p) j || is_defined (get o j))
unfolding spread
is_defined-spread o [] j = refl
is_defined-spread o ((k, v) ∷ p) j =
    ground (arith, is_defined-spread (put o k v) p j, is_defined-put o k j v)

-- Each name is a contract of the configuration or the one that the proposal deploys.
abbrev known : List String → Bool
known [] = true
known (name ∷ names) =
    (includes (keys mainnet_contracts_config) name || str_eq "simpleFeiDaiPSM" name) && known names

defined_address :
    (existing : NamedAddresses) (name : String)
    → includes (keys existing) "simpleFeiDaiPSM" ≡ true
    → (includes (keys mainnet_contracts_config) name || str_eq "simpleFeiDaiPSM" name) ≡ true
    → is_defined (get (after_upgrade_addresses existing) name) ≡ true
unfolding after_upgrade_addresses get_all_contract_addresses
defined_address existing name psm h =
    let later = is_defined-spread get_all_contract_addresses existing name in
    let before = is_defined-file_addresses mainnet_contracts_config [] name in
    elim (Bool-cases (str_eq "simpleFeiDaiPSM" name)) [
      | inl same ↦
          let there =
            subst (λ n. includes (keys existing) n ≡ true)
              ((str_eq_iff "simpleFeiDaiPSM" name).0 same) psm in
          later ∙ rw there refl
      | inr other ↦ ground (arith, later, before)
    ]

defined_addresses :
    (existing : NamedAddresses) (names : List String)
    → includes (keys existing) "simpleFeiDaiPSM" ≡ true
    → known names ≡ true
    → All (λ a. is_defined a ≡ true) (map (get (after_upgrade_addresses existing)) names)
unfolding after_upgrade_addresses get_all_contract_addresses
defined_addresses existing [] psm h = tt
defined_addresses existing (name ∷ names) psm h = (
  defined_address existing name psm (ground arith),
  defined_addresses existing names psm (ground arith),
)

other_role :
    (after_upgrade : NamedAddresses) (roles : Object (List String)) (rights : AccessRights)
    (role : String)
    → All (λ r. role ≢ r) (keys roles)
    → get (file_roles after_upgrade roles rights) role ≡ get rights role
unfolding file_roles
other_role after_upgrade [] rights role h = refl
other_role after_upgrade ((r, contracts) ∷ roles) rights role h =
    let addresses = map (get after_upgrade) contracts in
    ground (
      arith,
      other_role after_upgrade roles (put rights r addresses) role h.1,
      get-put rights r role addresses,
      str_eq_iff r role,
      h.0,
    )

get-file_roles :
    (after_upgrade : NamedAddresses) (roles : Object (List String)) (rights : AccessRights)
    (role : String) (contracts : List String)
    → Distinct (keys roles)
    → get roles role ≡ some contracts
    → get (file_roles after_upgrade roles rights) role ≡ some (map (get after_upgrade) contracts)
unfolding file_roles get
get-file_roles after_upgrade [] rights role contracts d h = cc
get-file_roles after_upgrade ((r, cs) ∷ roles) rights role contracts d h =
    let rest = put rights r (map (get after_upgrade) cs) in
    elim (Bool-cases (str_eq r role)) [
      | inl same ↦
          let e = (str_eq_iff r role).0 same in
          let others = subst (λ n. All (λ x. n ≢ x) (keys roles)) e d.0 in
          let cs-eq = some-injective cs contracts (rw same at h) in
          other_role after_upgrade roles rest role others
          ∙ get-put rights r role (map (get after_upgrade) cs)
          ∙ rw (same, cs-eq) refl
      | inr other ↦ get-file_roles after_upgrade roles rest role contracts d.1 (rw other at h)
    ]

permissions-Distinct : Distinct (keys permissions_config)
unfolding permissions_config
permissions-Distinct =
    distinct_sound str_eq (λ x y e. (str_eq_iff x y).1 e) (keys permissions_config) refl

permissions_known : AllEntries (λ role names. known names ≡ true) permissions_config
unfolding permissions_config mainnet_contracts_config contracts_first contracts_second
    contracts_third contracts_fourth contracts_fifth contracts_sixth contracts_seventh
    contracts_eighth contracts_ninth contracts_tenth contracts_eleventh contracts_twelfth
    contracts_thirteenth contracts_fourteenth contracts_fifteenth contracts_sixteenth
    contracts_seventeenth contracts_eighteenth contracts_nineteenth
permissions_known = search

-- Where the contracts that the upgrades leave include the new PSM under its name, every role of the
-- permissions is mapped to the addresses of exactly its listed contracts, in order, and none of
-- these addresses is undefined: each is of the mainnet configuration or of the upgrades.
pub get_access_control_mapping_defined :
    (existing : NamedAddresses) (role : String) (contracts : List String)
    → includes (keys existing) "simpleFeiDaiPSM" ≡ true
    → get permissions_config role ≡ some contracts
    → (get (get_access_control_mapping (after_upgrade_addresses existing)) role
        ≡ some (map (get (after_upgrade_addresses existing)) contracts))
      × All (λ a. is_defined a ≡ true) (map (get (after_upgrade_addresses existing)) contracts)
unfolding get_access_control_mapping
get_access_control_mapping_defined existing role contracts psm h = (
  get-file_roles (after_upgrade_addresses existing) permissions_config _ role contracts
      permissions-Distinct h,
  defined_addresses existing contracts psm (
      AllEntries-get (λ r names. known names ≡ true) permissions_config role contracts
        permissions_known h),
)
