-- ===== src/Tips/Tests.antt =====
-- The proposal run on a small store of roles, and the theorems at it.
use tribe.Base.{
  ℕ, suc, ◌≡◌, ◌≢◌, refl, true, false, some, [], ◌∷◌, String, ok, str_eq, ◌==◌, if◌then◌else◌,
  update₂, arith,
}
use tribe.Js.{get}
use tribe.Types.{NamedAddresses}
use tribe.Core.{is_governor, is_minter, create_role, grant_named, grant_minter}
use tribe.Core.Roles.{RoleStore, no_roles, role_store}
use tribe.Core.Trace.{Call, here, call, execute}
use tribe.Core.Minting.{IsBurnt, Keeps, History-Keeps, governor_regains_minting}
use tribe.Tips.Tip121c.{tip_121c}
use tribe.Tips.CoreCalls.{run_core}
use tribe.Tips.MinterRole.{NoCollision, Names, IsReady, burnt, tip_121c-runs}
use tribe.Tips.MinterBurnt.{tip_121c_burns_minting, only_new_psm_mints}

abbrev id : String → ℕ
id name =
    if str_eq name "MINTER_ROLE"
    then 1
    else if str_eq name "GOVERN_ROLE"
    then 2
    else if str_eq name "PCV_CONTROLLER_ROLE"
    then 3
    else if str_eq name "BURN_MINTER_ROLE_TEMPORARY_ROLE"
    then 4
    else 5

-- An address is as large as its text is long.
abbrev size : String → ℕ
size String.[] = 0
size (String.◌∷◌ c s) = suc (size s)

abbrev names : NamedAddresses
names =
    ("feiDAOTimelock", "1")
    ∷ ("daiFixedPricePSM", "22")
    ∷ ("daiFixedPricePSMFeiSkimmer", "333")
    ∷ ("daiPCVDripController", "4444")
    ∷ ("simpleFeiDaiPSM", "55555")
    ∷ ("pcvEquityMinter", "666666")
    ∷ []

dao_timelock_name : get names "feiDAOTimelock" ≡ some "1"
unfolding get
dao_timelock_name = refl

old_psm_name : get names "daiFixedPricePSM" ≡ some "22"
unfolding get
old_psm_name = refl

skimmer_name : get names "daiFixedPricePSMFeiSkimmer" ≡ some "333"
unfolding get
skimmer_name = refl

drip_controller_name : get names "daiPCVDripController" ≡ some "4444"
unfolding get
drip_controller_name = refl

new_psm_name : get names "simpleFeiDaiPSM" ≡ some "55555"
unfolding get
new_psm_name = refl

equity_minter_name : get names "pcvEquityMinter" ≡ some "666666"
unfolding get
equity_minter_name = refl

abbrev named : Names names
named = record {
  dao_timelock = "1";
  old_psm = "22";
  skimmer = "333";
  drip_controller = "4444";
  new_psm = "55555";
  equity_minter = "666666";
  has_dao_timelock = dao_timelock_name;
  has_old_psm = old_psm_name;
  has_skimmer = skimmer_name;
  has_drip_controller = drip_controller_name;
  has_new_psm = new_psm_name;
  has_equity_minter = equity_minter_name;
}

no_collision : NoCollision id
no_collision = record {
  minter_govern = omega arith;
  minter_pcv = omega arith;
  pcv_govern = omega arith;
  burnt_minter = omega arith;
  burnt_govern = omega arith;
  burnt_pcv = omega arith;
}

-- The timelock governs, and the old PSM mints.
abbrev before : RoleStore
before = record { members = update₂ (update₂ no_roles.members 2 1 true) 1 2 true; admins = λ r. 2 }

ready : IsReady role_store id 0 1 before
ready = record { governor = refl; minter_admin = refl; pcv_admin = refl }

nobody : (u : ℕ) → role_store.has_role before 4 u ≡ false
nobody u = refl

abbrev after : RoleStore
after = burnt role_store id 0 size names named before

runs : run_core role_store id 0 size 1 names (tip_121c id).commands before ≡ ok after
runs = tip_121c-runs role_store id 0 size names named before no_collision ready

tip_121c_burns_minting_example :
    (t : RoleStore) × (run_core role_store id 0 size 1 names (tip_121c id).commands before ≡ ok t)
    × IsBurnt role_store 1 4 t
    × ((u : ℕ)
        → is_minter role_store id 0 u t ≡ (
            if 6 == u
            then false
            else if 1 == u
            then false
            else if 5 == u
            then true
            else if 2 == u
            then false
            else is_minter role_store id 0 u before))
tip_121c_burns_minting_example =
    tip_121c_burns_minting role_store id 0 size names named before no_collision ready nobody

old_minters : (y : ℕ) → is_minter role_store id 0 y before ≡ true → y ≢ 2 → y ≢ 1 → y ≡ 6
unfolding is_minter
old_minters y h old timelock = ground arith

-- The timelock asks for the old PSM to be a minter again, and is refused; it grants another role.
abbrev later : RoleStore
later = record after { members = update₂ after.members 3 7 true }

grants : execute role_store id 0 1 (Call.grant "PCV_CONTROLLER_ROLE" 7) after ≡ ok later
unfolding execute grant_named is_governor
grants = refl

new_psm_mints : is_minter role_store id 0 5 later ≡ true
unfolding is_minter
new_psm_mints = refl

only_new_psm_mints_example : ◌≡◌ {A = ℕ} 5 5
only_new_psm_mints_example =
    only_new_psm_mints role_store id 0 size names named before after later 5 no_collision ready
      nobody old_minters runs (call here 1 (Call.grant "PCV_CONTROLLER_ROLE" 7) tt grants)
      new_psm_mints

after-IsBurnt : IsBurnt role_store 1 4 after
after-IsBurnt = record { minter_admin = refl; own_admin = refl; nobody = λ u. ground arith }

History-Keeps_example : Keeps role_store 1 4 after later
History-Keeps_example =
    History-Keeps role_store id 0 1 4 (call here 1 (Call.grant "PCV_CONTROLLER_ROLE" 7) tt grants)
      after-IsBurnt

timelock_governs : is_governor role_store id 0 1 after ≡ true
unfolding is_governor
timelock_governs = refl

-- After the proposal, the timelock makes the old PSM a minter again.
governor_regains_minting_example :
    (t u : RoleStore) × (create_role role_store id 0 1 1 2 after ≡ ok t)
    × (grant_minter role_store id 0 1 2 t ≡ ok u)
    × (is_minter role_store id 0 2 u ≡ true)
governor_regains_minting_example =
    governor_regains_minting role_store id 0 1 2 after timelock_governs
