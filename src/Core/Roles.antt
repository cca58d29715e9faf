-- ===== src/Core/Roles.antt =====
-- A store of roles as two functions: what `AccessControl` asks for can be met.
use tribe.Base.{
  ℕ, ◌≡◌, refl, Bool, true, false, ◌&&◌, ok, err, ◌==◌, if◌then◌else◌, update, update₂, arith,
}
use tribe.Core.{AccessControl}

pub record RoleStore : Type 0 where
  pub members : ℕ → ℕ → Bool
  pub admins : ℕ → ℕ

abbrev pub no_roles : RoleStore
no_roles = record { members = λ r u. false; admins = λ r. 0 }

pub nested : (p q a b : Bool) → (if p then (if q then a else b) else b) ≡ (if p && q then a else b)
nested p q a b = ground arith

abbrev pub role_store : AccessControl
role_store = record {
  State = RoleStore;
  has_role = λ s. s.members;
  get_role_admin = λ s. s.admins;
  set_role_admin = λ r a s. record s { admins = update s.admins r a };
  granted = λ r u s. record s { members = update₂ s.members r u true };
  revoked = λ r u s. record s { members = update₂ s.members r u false };
  grant_role = λ caller r u s.
      if s.members (s.admins r) caller
      then ok (record s { members = update₂ s.members r u true })
      else err "AccessControl: account is missing role";
  revoke_role = λ caller r u s.
      if s.members (s.admins r) caller
      then ok (record s { members = update₂ s.members r u false })
      else err "AccessControl: account is missing role";
  renounce_role = λ caller r u s.
      if u == caller
      then ok (record s { members = update₂ s.members r u false })
      else err "AccessControl: can only renounce roles for self";
  has_role-set_role_admin = λ r a s x u. refl;
  has_role-granted = λ r a s x u. nested (r == x) (a == u) true (s.members x u);
  has_role-revoked = λ r a s x u. nested (r == x) (a == u) false (s.members x u);
  admin-set_role_admin = λ r a s x. refl;
  admin-granted = λ r a s x. refl;
  admin-revoked = λ r a s x. refl;
  grant_role_lem = λ caller r a s. refl;
  revoke_role_lem = λ caller r a s. refl;
  renounce_role_lem = λ caller r a s. refl;
}
