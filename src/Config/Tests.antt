-- ===== src/Config/Tests.antt =====
-- The addresses of a role after the upgrade that deploys the new PSM.
use tribe.Base.{◌≡◌, refl, true, some, List, [], ◌∷◌, map, String, All}
use tribe.Js.{get}
use tribe.Types.{NamedAddresses}
use tribe.Config.Permissions.{permissions_config}
use tribe.Config.Holders.{
  after_upgrade_addresses, get_access_control_mapping, is_defined,
  get_access_control_mapping_defined,
}

abbrev existing : NamedAddresses
existing = ("simpleFeiDaiPSM", "0x7777") ∷ ("fei", "0x956f") ∷ []

abbrev guardians : List String
guardians = "guardianMultisig" ∷ "pcvGuardian" ∷ "pcvSentinel" ∷ []

listed : get permissions_config "GUARDIAN_ROLE" ≡ some guardians
unfolding permissions_config get
listed = refl

get_access_control_mapping_defined_example :
    (get (get_access_control_mapping (after_upgrade_addresses existing)) "GUARDIAN_ROLE"
      ≡ some (map (get (after_upgrade_addresses existing)) guardians))
    × All (λ a. is_defined a ≡ true) (map (get (after_upgrade_addresses existing)) guardians)
get_access_control_mapping_defined_example =
    get_access_control_mapping_defined existing "GUARDIAN_ROLE" guardians refl listed
