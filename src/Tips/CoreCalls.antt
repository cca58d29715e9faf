-- ===== src/Tips/CoreCalls.antt =====
-- The commands of a proposal that call Core, run in order by the account that executes it: the
-- method's signature and its arguments choose a function of Permissions.sol. Commands to other
-- contracts change no role and are passed over.
use tribe.Base.{ℕ, List, [], ◌∷◌, some, String, Result, ok, err, ◌>>=◌, str_eq, if◌then◌else◌}
use tribe.Types.{NamedAddresses, Argument, address, bytes32, TemplatedProposalCommand}
use tribe.Core.{AccessControl, create_role, grant_named, revoke_named, revoke_override}

module _ (ac : AccessControl) (role_id : String → ℕ) (core : ℕ) (to_address : String → ℕ) where
  -- The functions of one address.
  unfoldable pub call_address : String → ℕ → ℕ → ac.State → Result ac.State
  call_address method caller x s =
      if str_eq method "grantMinter(address)"
      then grant_named ac role_id core "MINTER_ROLE" caller x s
      else if str_eq method "revokeMinter(address)"
      then revoke_named ac role_id core "MINTER_ROLE" caller x s
      else if str_eq method "grantBurner(address)"
      then grant_named ac role_id core "BURNER_ROLE" caller x s
      else if str_eq method "revokeBurner(address)"
      then revoke_named ac role_id core "BURNER_ROLE" caller x s
      else if str_eq method "grantPCVController(address)"
      then grant_named ac role_id core "PCV_CONTROLLER_ROLE" caller x s
      else if str_eq method "revokePCVController(address)"
      then revoke_named ac role_id core "PCV_CONTROLLER_ROLE" caller x s
      else if str_eq method "grantGovernor(address)"
      then grant_named ac role_id core "GOVERN_ROLE" caller x s
      else if str_eq method "revokeGovernor(address)"
      then revoke_named ac role_id core "GOVERN_ROLE" caller x s
      else if str_eq method "grantGuardian(address)"
      then grant_named ac role_id core "GUARDIAN_ROLE" caller x s
      else if str_eq method "revokeGuardian(address)"
      then revoke_named ac role_id core "GUARDIAN_ROLE" caller x s
      else err "no matching function"

  -- The functions of a role and an address.
  unfoldable pub call_role : String → ℕ → ℕ → ℕ → ac.State → Result ac.State
  call_role method caller r x s =
      if str_eq method "grantRole(bytes32,address)"
      then ac.grant_role caller r x s
      else if str_eq method "revokeRole(bytes32,address)"
      then ac.revoke_role caller r x s
      else if str_eq method "renounceRole(bytes32,address)"
      then ac.renounce_role caller r x s
      else if str_eq method "revokeOverride(bytes32,address)"
      then revoke_override ac role_id core caller r x s
      else err "no matching function"

  -- An address that is undefined cannot be encoded.
  unfoldable pub call_core : String → ℕ → List Argument → ac.State → Result ac.State
  call_core method caller (address (some x) ∷ []) s = call_address method caller (to_address x) s
  call_core method caller (bytes32 r ∷ address (some x) ∷ []) s =
      call_role method caller r (to_address x) s
  call_core method caller (bytes32 r ∷ bytes32 a ∷ []) s =
      if str_eq method "createRole(bytes32,bytes32)"
      then create_role ac role_id core caller r a s
      else err "no matching function"
  call_core method caller _ s = err "invalid arguments"

  unfoldable pub run_core :
      ℕ → NamedAddresses → List TemplatedProposalCommand → ac.State → Result ac.State
  unfolding call_core call_address call_role
  run_core caller names [] s = ok s
  run_core caller names (c ∷ commands) s = do
    s' ← if str_eq c.target "core" then call_core c.method caller (c.arguments names) s else ok s
    run_core caller names commands s'
