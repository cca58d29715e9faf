-- ===== src/Core/Trace.antt =====
-- Calls to Core that can change a role, and histories of those that returned.
use tribe.Base.{ℕ, ◌≡◌, String, Result, ok}
use tribe.Core.{AccessControl, create_role, grant_named, revoke_named, revoke_override}

-- The functions `grantMinter`, …, `revokeGuardian` come as `grant` and `revoke` with the name of
-- their role.
pub data Call : Type 0 where
  create : (role admin_role : ℕ) → Call
  grant revoke : (name : String) (account : ℕ) → Call
  override : (role account : ℕ) → Call
  grant_role revoke_role renounce_role : (role account : ℕ) → Call

module _ (ac : AccessControl) (role_id : String → ℕ) (core : ℕ) where
  unfoldable pub execute : ℕ → Call → ac.State → Result ac.State
  execute caller (create role admin_role) = create_role ac role_id core caller role admin_role
  execute caller (grant name account) = grant_named ac role_id core name caller account
  execute caller (revoke name account) = revoke_named ac role_id core name caller account
  execute caller (override role account) = revoke_override ac role_id core caller role account
  execute caller (grant_role role account) = ac.grant_role caller role account
  execute caller (revoke_role role account) = ac.revoke_role caller role account
  execute caller (renounce_role role account) = ac.renounce_role caller role account

  -- A history, with a condition on every call that it makes.
  pub data History (Allowed : Call → Type 0) (s : ac.State) : ac.State → Type 0 where
    here : History Allowed s s
    call :
        {t t' : ac.State}
        → History Allowed s t
        → (caller : ℕ) (m : Call) → Allowed m
        → execute caller m t ≡ ok t'
        → History Allowed s t'
