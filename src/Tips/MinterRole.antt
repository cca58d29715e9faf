-- ===== src/Tips/MinterRole.antt =====
-- What tip_121c.ts does to the roles of Core, when the DAO's timelock runs it.
use tribe.Base.{
  ℕ, ◌≡◌, ◌≢◌, refl, ◌∙◌, true, some, String, ok, ◌>>=◌, >>=-ok, require-then-ok, ==_refl, arith,
}
use tribe.Js.{get}
use tribe.Types.{NamedAddresses}
use tribe.Core.{AccessControl, is_governor, create_role, grant_named, revoke_named}
use tribe.Tips.Tip121c.{tip_121c}
use tribe.Tips.CoreCalls.{run_core}

-- The four role names hash to four numbers.
pub record NoCollision (id : String → ℕ) : Type 0 where
  pub minter_govern : id "MINTER_ROLE" ≢ id "GOVERN_ROLE"
  pub minter_pcv : id "MINTER_ROLE" ≢ id "PCV_CONTROLLER_ROLE"
  pub pcv_govern : id "PCV_CONTROLLER_ROLE" ≢ id "GOVERN_ROLE"
  pub burnt_minter : id "BURN_MINTER_ROLE_TEMPORARY_ROLE" ≢ id "MINTER_ROLE"
  pub burnt_govern : id "BURN_MINTER_ROLE_TEMPORARY_ROLE" ≢ id "GOVERN_ROLE"
  pub burnt_pcv : id "BURN_MINTER_ROLE_TEMPORARY_ROLE" ≢ id "PCV_CONTROLLER_ROLE"

-- The addresses that the commands to Core look up.
pub record Names (a : NamedAddresses) : Type 0 where
  pub dao_timelock : String
  pub old_psm : String
  pub skimmer : String
  pub drip_controller : String
  pub new_psm : String
  pub equity_minter : String
  pub has_dao_timelock : get a "feiDAOTimelock" ≡ some dao_timelock
  pub has_old_psm : get a "daiFixedPricePSM" ≡ some old_psm
  pub has_skimmer : get a "daiFixedPricePSMFeiSkimmer" ≡ some skimmer
  pub has_drip_controller : get a "daiPCVDripController" ≡ some drip_controller
  pub has_new_psm : get a "simpleFeiDaiPSM" ≡ some new_psm
  pub has_equity_minter : get a "pcvEquityMinter" ≡ some equity_minter

module _ (ac : AccessControl) (id : String → ℕ) (core : ℕ) where
  -- What the proposal needs of the roles before it runs.
  pub record IsReady (timelock : ℕ) (s : ac.State) : Type 0 where
    pub governor : ac.has_role s (id "GOVERN_ROLE") timelock ≡ true
    pub minter_admin : ac.get_role_admin s (id "MINTER_ROLE") ≡ id "GOVERN_ROLE"
    pub pcv_admin : ac.get_role_admin s (id "PCV_CONTROLLER_ROLE") ≡ id "GOVERN_ROLE"

  revoked-IsReady :
      (timelock r x : ℕ) (s : ac.State)
      → r ≢ id "GOVERN_ROLE"
      → IsReady timelock s
      → IsReady timelock (ac.revoked r x s)
  revoked-IsReady timelock r x s ne i = record {
    governor = rw ac.has_role-revoked (ground (arith, i.governor));
    minter_admin = rw ac.admin-revoked i.minter_admin;
    pcv_admin = rw ac.admin-revoked i.pcv_admin;
  }

  granted-IsReady :
      (timelock r x : ℕ) (s : ac.State)
      → r ≢ id "GOVERN_ROLE"
      → IsReady timelock s
      → IsReady timelock (ac.granted r x s)
  granted-IsReady timelock r x s ne i = record {
    governor = rw ac.has_role-granted (ground (arith, i.governor));
    minter_admin = rw ac.admin-granted i.minter_admin;
    pcv_admin = rw ac.admin-granted i.pcv_admin;
  }

  revoke_named-ok :
      (name : String) (timelock x : ℕ) (s : ac.State)
      → is_governor ac id core timelock s ≡ true
      → ac.get_role_admin s (id name) ≡ id "GOVERN_ROLE"
      → revoke_named ac id core name timelock x s ≡ ok (ac.revoked (id name) x s)
  unfolding revoke_named is_governor
  revoke_named-ok name timelock x s g h =
      require-then-ok (is_governor ac id core timelock s) _ _ g
        (ac.revoke_role_lem timelock (id name) x s ∙ rw (h, g))

  grant_named-ok :
      (name : String) (timelock x : ℕ) (s : ac.State)
      → is_governor ac id core timelock s ≡ true
      → ac.get_role_admin s (id name) ≡ id "GOVERN_ROLE"
      → grant_named ac id core name timelock x s ≡ ok (ac.granted (id name) x s)
  unfolding grant_named is_governor
  grant_named-ok name timelock x s g h =
      require-then-ok (is_governor ac id core timelock s) _ _ g
        (ac.grant_role_lem timelock (id name) x s ∙ rw (h, g))

  create_role-ok :
      (timelock r a : ℕ) (s : ac.State)
      → is_governor ac id core timelock s ≡ true
      → create_role ac id core timelock r a s ≡ ok (ac.set_role_admin r a s)
  unfolding create_role
  create_role-ok timelock r a s g = require-then-ok (is_governor ac id core timelock s) _ _ g refl

  set_role_admin-IsReady :
      (timelock r x : ℕ) (s : ac.State)
      → r ≢ id "MINTER_ROLE"
      → r ≢ id "PCV_CONTROLLER_ROLE"
      → IsReady timelock s
      → IsReady timelock (ac.set_role_admin r x s)
  set_role_admin-IsReady timelock r x s hm hp i = record {
    governor = rw ac.has_role-set_role_admin i.governor;
    minter_admin = rw ac.admin-set_role_admin (ground (arith, i.minter_admin));
    pcv_admin = rw ac.admin-set_role_admin (ground (arith, i.pcv_admin));
  }

  governs :
      (timelock : ℕ) (s : ac.State) → IsReady timelock s → is_governor ac id core timelock s ≡ true
  unfolding is_governor
  governs timelock s i = i.governor

  -- The roles after the five commands that give MINTER_ROLE's admin role away.
  abbrev pub burnt_from : ℕ → ac.State → ac.State
  burnt_from timelock s =
      let temporary = id "BURN_MINTER_ROLE_TEMPORARY_ROLE" in
      let s1 = ac.set_role_admin temporary (id "GOVERN_ROLE") s in
      let s2 = ac.granted temporary timelock s1 in
      let s3 = ac.set_role_admin temporary temporary s2 in
      let s4 = ac.set_role_admin (id "MINTER_ROLE") temporary s3 in ac.revoked temporary timelock s4

  role_burnt :
      (t : ℕ) (s : ac.State)
      → NoCollision id
      → IsReady t s
      → (create_role ac id core t (id "BURN_MINTER_ROLE_TEMPORARY_ROLE") (id "GOVERN_ROLE") s
          >>= λ s1. ac.grant_role t (id "BURN_MINTER_ROLE_TEMPORARY_ROLE") t s1 >>= λ s2.
              create_role ac id core t
                (id "BURN_MINTER_ROLE_TEMPORARY_ROLE")
                (id "BURN_MINTER_ROLE_TEMPORARY_ROLE")
                s2
              >>= λ s3.
                  create_role ac id core t
                    (id "MINTER_ROLE")
                    (id "BURN_MINTER_ROLE_TEMPORARY_ROLE")
                    s3
                  >>= λ s4. ac.renounce_role t (id "BURN_MINTER_ROLE_TEMPORARY_ROLE") t s4 >>= λ s5.
                      ok s5)
        ≡ ok (burnt_from t s)
  role_burnt t s distinct ready =
      let temporary = id "BURN_MINTER_ROLE_TEMPORARY_ROLE" in
      let s1 = ac.set_role_admin temporary (id "GOVERN_ROLE") s in
      let r1 =
        set_role_admin-IsReady t temporary (id "GOVERN_ROLE") s distinct.burnt_minter
          distinct.burnt_pcv ready in
      let s2 = ac.granted temporary t s1 in
      let r2 = granted-IsReady t temporary t s1 distinct.burnt_govern r1 in
      let s3 = ac.set_role_admin temporary temporary s2 in
      let r3 =
        set_role_admin-IsReady t temporary temporary s2 distinct.burnt_minter distinct.burnt_pcv
          r2 in
      let s4 = ac.set_role_admin (id "MINTER_ROLE") temporary s3 in
      >>=-ok (create_role ac id core t temporary (id "GOVERN_ROLE") s) _ s1
        (create_role-ok t temporary (id "GOVERN_ROLE") s (governs t s ready))
        (>>=-ok (ac.grant_role t temporary t s1) _ s2
          (ac.grant_role_lem t temporary t s1
            ∙ ground (
              arith,
              r1.governor,
              ac.admin-set_role_admin temporary (id "GOVERN_ROLE") s temporary,
            ))
          (>>=-ok (create_role ac id core t temporary temporary s2) _ s3
            (create_role-ok t temporary temporary s2 (governs t s2 r2))
            (>>=-ok (create_role ac id core t (id "MINTER_ROLE") temporary s3) _ s4
              (create_role-ok t (id "MINTER_ROLE") temporary s3 (governs t s3 r3))
              (>>=-ok (ac.renounce_role t temporary t s4) _ (ac.revoked temporary t s4)
                (ac.renounce_role_lem t temporary t s4 ∙ rw ==_refl) refl))))

  module _ (to_address : String → ℕ) (a : NamedAddresses) (n : Names a) where
    -- The roles before MINTER_ROLE's admin changes, and after.
    abbrev pub revised : ac.State → ac.State
    revised s =
        let s1 = ac.revoked (id "MINTER_ROLE") (to_address n.old_psm) s in
        let s2 = ac.revoked (id "PCV_CONTROLLER_ROLE") (to_address n.skimmer) s1 in
        let s3 = ac.revoked (id "PCV_CONTROLLER_ROLE") (to_address n.drip_controller) s2 in
        let s4 = ac.granted (id "MINTER_ROLE") (to_address n.new_psm) s3 in
        let s5 = ac.revoked (id "MINTER_ROLE") (to_address n.dao_timelock) s4 in
        ac.revoked (id "MINTER_ROLE") (to_address n.equity_minter) s5

    abbrev pub burnt : ac.State → ac.State
    burnt s = burnt_from (to_address n.dao_timelock) (revised s)

    pub tip_121c-runs :
        (s : ac.State)
        → NoCollision id
        → IsReady (to_address n.dao_timelock) s
        → run_core ac id core to_address (to_address n.dao_timelock) a (tip_121c id).commands s
          ≡ ok (burnt s)
    unfolding run_core tip_121c
    tip_121c-runs s distinct ready =
        let t = to_address n.dao_timelock in
        let minter = id "MINTER_ROLE" in
        let pcv = id "PCV_CONTROLLER_ROLE" in
        let temporary = id "BURN_MINTER_ROLE_TEMPORARY_ROLE" in
        let old = to_address n.old_psm in
        let skimmer = to_address n.skimmer in
        let drip = to_address n.drip_controller in
        let new = to_address n.new_psm in
        let equity = to_address n.equity_minter in
        let s1 = ac.revoked minter old s in
        let r1 = revoked-IsReady t minter old s distinct.minter_govern ready in
        let s2 = ac.revoked pcv skimmer s1 in
        let r2 = revoked-IsReady t pcv skimmer s1 distinct.pcv_govern r1 in
        let s3 = ac.revoked pcv drip s2 in
        let r3 = revoked-IsReady t pcv drip s2 distinct.pcv_govern r2 in
        let s4 = ac.granted minter new s3 in
        let r4 = granted-IsReady t minter new s3 distinct.minter_govern r3 in
        let s5 = ac.revoked minter t s4 in
        let r5 = revoked-IsReady t minter t s4 distinct.minter_govern r4 in
        rw
          (
            n.has_dao_timelock, n.has_old_psm, n.has_skimmer, n.has_drip_controller, n.has_new_psm,
            n.has_equity_minter,
          )
          (>>=-ok (revoke_named ac id core "MINTER_ROLE" t old s) _ s1
            (revoke_named-ok "MINTER_ROLE" t old s (governs t s ready) ready.minter_admin)
            (>>=-ok (revoke_named ac id core "PCV_CONTROLLER_ROLE" t skimmer s1) _ s2
              (revoke_named-ok "PCV_CONTROLLER_ROLE" t skimmer s1 (governs t s1 r1) r1.pcv_admin)
              (>>=-ok (revoke_named ac id core "PCV_CONTROLLER_ROLE" t drip s2) _ s3
                (revoke_named-ok "PCV_CONTROLLER_ROLE" t drip s2 (governs t s2 r2) r2.pcv_admin)
                (>>=-ok (grant_named ac id core "MINTER_ROLE" t new s3) _ s4
                  (grant_named-ok "MINTER_ROLE" t new s3 (governs t s3 r3) r3.minter_admin)
                  (>>=-ok (revoke_named ac id core "MINTER_ROLE" t t s4) _ s5
                    (revoke_named-ok "MINTER_ROLE" t t s4 (governs t s4 r4) r4.minter_admin)
                    (>>=-ok (revoke_named ac id core "MINTER_ROLE" t equity s5) _ (revised s)
                      (revoke_named-ok "MINTER_ROLE" t equity s5 (governs t s5 r5) r5.minter_admin)
                      (role_burnt t (revised s) distinct
                        (revoked-IsReady t minter equity s5 distinct.minter_govern r5))))))))
