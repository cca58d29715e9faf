-- ===== src/Core/Minting.antt =====
-- Who can become a minter, once the admin of MINTER_ROLE is a role that nobody holds.
use tribe.Base.{
  ℕ, ◌≡◌, ◌≢◌, sym, ◌∙◌, inl, inr, true, false, String, ok, ok-injective, subst, require-then-eq-ok,
  Bool-cases, ◌==◌, arith, not,
}
use tribe.Core.{
  AccessControl, is_governor, is_guardian, is_minter, create_role, grant_named, revoke_named,
  revoke_override, grant_minter,
}
use tribe.Core.Trace.{Call, execute, History, here, call}

-- The admin of the role `minter` is `burnt`, which is its own admin and which nobody holds.
pub record IsBurnt (ac : AccessControl) (minter burnt : ℕ) (s : ac.State) : Type 0 where
  pub minter_admin : ac.get_role_admin s minter ≡ burnt
  pub own_admin : ac.get_role_admin s burnt ≡ burnt
  pub nobody : (u : ℕ) → ac.has_role s burnt u ≡ false

-- Calls other than a `createRole` of one of the two roles.
abbrev pub LeavesAdmins : ℕ → ℕ → Call → Type 0
LeavesAdmins minter burnt (Call.create role admin_role) = (role ≢ minter) × (role ≢ burnt)
LeavesAdmins minter burnt (Call.grant name account) = Unit
LeavesAdmins minter burnt (Call.revoke name account) = Unit
LeavesAdmins minter burnt (Call.override role account) = Unit
LeavesAdmins minter burnt (Call.grant_role role account) = Unit
LeavesAdmins minter burnt (Call.revoke_role role account) = Unit
LeavesAdmins minter burnt (Call.renounce_role role account) = Unit

module _ (ac : AccessControl) (minter burnt : ℕ) where
  -- The roles stay burnt, and nobody becomes a minter.
  pub record Keeps (s t : ac.State) : Type 0 where
    pub still : IsBurnt ac minter burnt t
    pub no_more : (u : ℕ) → ac.has_role t minter u ≡ true → ac.has_role s minter u ≡ true

  set_role_admin-Keeps :
      (r a : ℕ) (s : ac.State)
      → r ≢ minter
      → r ≢ burnt
      → IsBurnt ac minter burnt s
      → Keeps s (ac.set_role_admin r a s)
  set_role_admin-Keeps r a s hm hb i = record {
    still = record {
      minter_admin = rw ac.admin-set_role_admin (ground (arith, i.minter_admin));
      own_admin = rw ac.admin-set_role_admin (ground (arith, i.own_admin));
      nobody = λ u. rw ac.has_role-set_role_admin (i.nobody u);
    };
    no_more = λ u h. rw ac.has_role-set_role_admin at h;
  }

  revoked-Keeps : (r a : ℕ) (s : ac.State) → IsBurnt ac minter burnt s → Keeps s (ac.revoked r a s)
  revoked-Keeps r a s i = record {
    still = record {
      minter_admin = rw ac.admin-revoked i.minter_admin;
      own_admin = rw ac.admin-revoked i.own_admin;
      nobody = λ u. rw ac.has_role-revoked (ground (arith, i.nobody u));
    };
    no_more = λ u h. ground (arith, ac.has_role-revoked r a s minter u);
  }

  granted-Keeps :
      (r a : ℕ) (s : ac.State)
      → r ≢ minter
      → r ≢ burnt
      → IsBurnt ac minter burnt s
      → Keeps s (ac.granted r a s)
  granted-Keeps r a s hm hb i = record {
    still = record {
      minter_admin = rw ac.admin-granted i.minter_admin;
      own_admin = rw ac.admin-granted i.own_admin;
      nobody = λ u. rw ac.has_role-granted (ground (arith, i.nobody u));
    };
    no_more = λ u h. ground (arith, ac.has_role-granted r a s minter u);
  }

  grant_role-Keeps :
      (caller r a : ℕ) (s t : ac.State)
      → ac.grant_role caller r a s ≡ ok t
      → IsBurnt ac minter burnt s
      → Keeps s t
  grant_role-Keeps caller r a s t h i =
      let done = sym (ac.grant_role_lem caller r a s) ∙ h in
      elim (Bool-cases (ac.has_role s (ac.get_role_admin s r) caller)) [
        | inr denied ↦ cc (done, denied)
        | inl allowed ↦ subst (Keeps s) (ok-injective (rw allowed at done)) (
            granted-Keeps r a s (λ e. cc (allowed, e, i.minter_admin, i.nobody caller))
              (λ e. cc (allowed, e, i.own_admin, i.nobody caller)) i)
      ]

  revoke_role-Keeps :
      (caller r a : ℕ) (s t : ac.State)
      → ac.revoke_role caller r a s ≡ ok t
      → IsBurnt ac minter burnt s
      → Keeps s t
  revoke_role-Keeps caller r a s t h i =
      let done = sym (ac.revoke_role_lem caller r a s) ∙ h in
      elim (Bool-cases (ac.has_role s (ac.get_role_admin s r) caller)) [
        | inr denied ↦ cc (done, denied)
        | inl allowed ↦ subst (Keeps s) (ok-injective (rw allowed at done)) (revoked-Keeps r a s i)
      ]

  renounce_role-Keeps :
      (caller r a : ℕ) (s t : ac.State)
      → ac.renounce_role caller r a s ≡ ok t
      → IsBurnt ac minter burnt s
      → Keeps s t
  renounce_role-Keeps caller r a s t h i =
      let done = sym (ac.renounce_role_lem caller r a s) ∙ h in
      elim (Bool-cases (a == caller)) [
        | inr denied ↦ cc (done, denied)
        | inl allowed ↦ subst (Keeps s) (ok-injective (rw allowed at done)) (revoked-Keeps r a s i)
      ]

module _ (ac : AccessControl) (role_id : String → ℕ) (core : ℕ) (minter burnt : ℕ) where
  execute-Keeps :
      (caller : ℕ) (m : Call) (s t : ac.State)
      → execute ac role_id core caller m s ≡ ok t
      → LeavesAdmins minter burnt m
      → IsBurnt ac minter burnt s
      → Keeps ac minter burnt s t
  unfolding execute create_role grant_named revoke_named revoke_override
  execute-Keeps caller (Call.create role admin_role) s t h a i =
      subst (Keeps ac minter burnt s)
        (ok-injective (require-then-eq-ok (is_governor ac role_id core caller s) _ _ h).1)
        (set_role_admin-Keeps ac minter burnt role admin_role s a.0 a.1 i)
  execute-Keeps caller (Call.grant name account) s t h a i =
      grant_role-Keeps ac minter burnt caller (role_id name) account s t
        (require-then-eq-ok (is_governor ac role_id core caller s) _ _ h).1 i
  execute-Keeps caller (Call.revoke name account) s t h a i =
      revoke_role-Keeps ac minter burnt caller (role_id name) account s t
        (require-then-eq-ok (is_governor ac role_id core caller s) _ _ h).1 i
  execute-Keeps caller (Call.override role account) s t h a i =
      revoke_role-Keeps ac minter burnt core role account s t
        (require-then-eq-ok (not (role == role_id "GOVERN_ROLE")) _ _
          (require-then-eq-ok (is_guardian ac role_id core caller s) _ _ h).1).1
        i
  execute-Keeps caller (Call.grant_role role account) s t h a i =
      grant_role-Keeps ac minter burnt caller role account s t h i
  execute-Keeps caller (Call.revoke_role role account) s t h a i =
      revoke_role-Keeps ac minter burnt caller role account s t h i
  execute-Keeps caller (Call.renounce_role role account) s t h a i =
      renounce_role-Keeps ac minter burnt caller role account s t h i

  -- Once the admin of MINTER_ROLE is a role that is its own admin and that nobody holds, no
  -- sequence of calls to Core by anybody makes an account a minter that was none, as long as no
  -- `createRole` names one of the two roles.
  pub History-Keeps :
      {s t : ac.State}
      → History ac role_id core (LeavesAdmins minter burnt) s t
      → IsBurnt ac minter burnt s
      → Keeps ac minter burnt s t
  History-Keeps here i = record { still = i; no_more = λ u h. h }
  History-Keeps (call {t = m} {t' = m'} past caller x allowed h) i =
      let before = History-Keeps past i in
      let step = execute-Keeps caller x m m' h allowed before.still in
      record { still = step.still; no_more = λ u k. before.no_more u (step.no_more u k) }

module _ (ac : AccessControl) (role_id : String → ℕ) (core : ℕ) where
  -- Whatever the admin of MINTER_ROLE is, burnt or not, a governor makes any account a minter with
  -- two calls: `createRole` of MINTER_ROLE with GOVERN_ROLE as its admin, then `grantMinter`.
  pub governor_regains_minting :
      (governor account : ℕ) (s : ac.State)
      → is_governor ac role_id core governor s ≡ true
      → (t u : ac.State) × (create_role ac role_id core governor
            (role_id "MINTER_ROLE")
            (role_id "GOVERN_ROLE")
            s
          ≡ ok t)
        × (grant_minter ac role_id core governor account t ≡ ok u)
        × (is_minter ac role_id core account u ≡ true)
  unfolding create_role grant_named is_governor is_minter
  governor_regains_minting governor account s h =
      let minter = role_id "MINTER_ROLE" in
      let t = ac.set_role_admin minter (role_id "GOVERN_ROLE") s in
      let still =
        ac.has_role-set_role_admin minter (role_id "GOVERN_ROLE") s (role_id "GOVERN_ROLE") governor
        ∙ h in
      let now = ac.admin-set_role_admin minter (role_id "GOVERN_ROLE") s minter in
      (
        t,
        ac.granted minter account t,
        rw h,
        ground (arith, still, now, ac.grant_role_lem governor minter account t),
        ground (arith, ac.has_role-granted minter account t minter account),
      )
