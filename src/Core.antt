-- ===== src/Core.antt =====
-- contracts/core/Permissions.sol, which Core.sol inherits: the roles of the protocol. The role
-- store below it is OpenZeppelin's AccessControl, a parameter.
pub mod Trace
pub mod Roles
pub mod Minting
use tribe.Base.{
  ℕ, ◌≡◌, ◌≢◌, Bool, true, false, not, ◌&&◌, String, Result, ok, err, ◌>>=◌, ◌>>◌, require, ◌==◌,
  if◌then◌else◌,
}

-- AccessControlEnumerable: who has which role, each role's admin role, the internal setters, and
-- the external functions, which check their caller.
pub record AccessControl : Type 1 where
  pub State : Type 0
  pub has_role : State → ℕ → ℕ → Bool
  pub get_role_admin : State → ℕ → ℕ
  -- `_setRoleAdmin(role, adminRole)`, `_grantRole(role, account)`, `_revokeRole(role, account)`
  pub set_role_admin : ℕ → ℕ → State → State
  pub granted : ℕ → ℕ → State → State
  pub revoked : ℕ → ℕ → State → State
  -- caller, role, account
  pub grant_role : ℕ → ℕ → ℕ → State → Result State
  pub revoke_role : ℕ → ℕ → ℕ → State → Result State
  pub renounce_role : ℕ → ℕ → ℕ → State → Result State
  pub has_role-set_role_admin :
      (r a : ℕ) (s : State) (x u : ℕ) → has_role (set_role_admin r a s) x u ≡ has_role s x u
  pub has_role-granted :
      (r a : ℕ) (s : State) (x u : ℕ)
      → has_role (granted r a s) x u ≡ (if r == x && a == u then true else has_role s x u)
  pub has_role-revoked :
      (r a : ℕ) (s : State) (x u : ℕ)
      → has_role (revoked r a s) x u ≡ (if r == x && a == u then false else has_role s x u)
  pub admin-set_role_admin :
      (r a : ℕ) (s : State) (x : ℕ)
      → get_role_admin (set_role_admin r a s) x ≡ (if r == x then a else get_role_admin s x)
  pub admin-granted :
      (r a : ℕ) (s : State) (x : ℕ) → get_role_admin (granted r a s) x ≡ get_role_admin s x
  pub admin-revoked :
      (r a : ℕ) (s : State) (x : ℕ) → get_role_admin (revoked r a s) x ≡ get_role_admin s x
  -- Only a holder of a role's admin role may grant it or revoke it, and only the holder renounce it.
  pub grant_role_lem :
      (caller r a : ℕ) (s : State)
      → grant_role caller r a s ≡ (
          if has_role s (get_role_admin s r) caller
          then ok (granted r a s)
          else err "AccessControl: account is missing role")
  pub revoke_role_lem :
      (caller r a : ℕ) (s : State)
      → revoke_role caller r a s ≡ (
          if has_role s (get_role_admin s r) caller
          then ok (revoked r a s)
          else err "AccessControl: account is missing role")
  pub renounce_role_lem :
      (caller r a : ℕ) (s : State)
      → renounce_role caller r a s ≡ (
          if a == caller
          then ok (revoked r a s)
          else err "AccessControl: can only renounce roles for self")

-- `role_id` is `keccak256` of a role's name, and `core` the contract's own address.
module _ (ac : AccessControl) (role_id : String → ℕ) (core : ℕ) where
  unfoldable pub is_governor : ℕ → ac.State → Bool
  is_governor account s = ac.has_role s (role_id "GOVERN_ROLE") account

  unfoldable pub is_guardian : ℕ → ac.State → Bool
  is_guardian account s = ac.has_role s (role_id "GUARDIAN_ROLE") account

  unfoldable pub is_minter : ℕ → ac.State → Bool
  is_minter account s = ac.has_role s (role_id "MINTER_ROLE") account

  unfoldable pub is_burner : ℕ → ac.State → Bool
  is_burner account s = ac.has_role s (role_id "BURNER_ROLE") account

  unfoldable pub is_pcv_controller : ℕ → ac.State → Bool
  is_pcv_controller account s = ac.has_role s (role_id "PCV_CONTROLLER_ROLE") account

  abbrev only_governor : ℕ → ac.State → Result (Unit {0})
  only_governor caller s = require (is_governor caller s) "Permissions: Caller is not a governor"

  -- The roles that the constructor sets up on an empty store.
  unfoldable pub constructor : ac.State → ac.State
  constructor s =
      let s0 = ac.granted (role_id "GOVERN_ROLE") core s in
      let s1 = ac.set_role_admin (role_id "MINTER_ROLE") (role_id "GOVERN_ROLE") s0 in
      let s2 = ac.set_role_admin (role_id "BURNER_ROLE") (role_id "GOVERN_ROLE") s1 in
      let s3 = ac.set_role_admin (role_id "PCV_CONTROLLER_ROLE") (role_id "GOVERN_ROLE") s2 in
      let s4 = ac.set_role_admin (role_id "GOVERN_ROLE") (role_id "GOVERN_ROLE") s3 in
      ac.set_role_admin (role_id "GUARDIAN_ROLE") (role_id "GOVERN_ROLE") s4

  unfoldable pub create_role : ℕ → ℕ → ℕ → ac.State → Result ac.State
  create_role caller role admin_role s = do
    only_governor caller s
    ok (ac.set_role_admin role admin_role s)

  -- `grantMinter`, `grantBurner`, `grantPCVController`, `grantGovernor`, `grantGuardian`, by the
  -- role's name: each is `onlyGovernor`, and grants as its own caller.
  unfoldable pub grant_named : String → ℕ → ℕ → ac.State → Result ac.State
  grant_named name caller account s = do
    only_governor caller s
    ac.grant_role caller (role_id name) account s

  unfoldable pub revoke_named : String → ℕ → ℕ → ac.State → Result ac.State
  revoke_named name caller account s = do
    only_governor caller s
    ac.revoke_role caller (role_id name) account s

  abbrev pub grant_minter : ℕ → ℕ → ac.State → Result ac.State
  grant_minter = grant_named "MINTER_ROLE"

  abbrev pub revoke_minter : ℕ → ℕ → ac.State → Result ac.State
  revoke_minter = revoke_named "MINTER_ROLE"

  -- The contract calls itself, so the role is revoked by its own right as a governor.
  unfoldable pub revoke_override : ℕ → ℕ → ℕ → ac.State → Result ac.State
  revoke_override caller role account s = do
    require (is_guardian caller s) "Permissions: Caller is not a guardian"
    require (not (role == role_id "GOVERN_ROLE")) "Permissions: Guardian cannot revoke governor"
    ac.revoke_role core role account s
