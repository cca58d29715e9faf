-- ===== src/Tips/MinterBurnt.antt =====
-- Who can mint FEI after tip_121c.ts has run.
use tribe.Base.{
  ℕ, ◌≡◌, ◌≢◌, sym, ◌∙◌, subst, Bool, true, false, String, ok, ok-injective, ◌==◌, if◌then◌else◌,
  arith,
}
use tribe.Types.{NamedAddresses}
use tribe.Core.{AccessControl, is_minter}
use tribe.Core.Trace.{History}
use tribe.Core.Minting.{IsBurnt, LeavesAdmins, History-Keeps}
use tribe.Tips.Tip121c.{tip_121c}
use tribe.Tips.CoreCalls.{run_core}
use tribe.Tips.MinterRole.{NoCollision, Names, IsReady, burnt, tip_121c-runs}

module _ (ac : AccessControl) (id : String → ℕ) (core : ℕ) (to_address : String → ℕ)
    (a : NamedAddresses) (n : Names a) where
  abbrev temporary : ℕ
  temporary = id "BURN_MINTER_ROLE_TEMPORARY_ROLE"

  burnt-IsBurnt :
      (s : ac.State)
      → NoCollision id
      → ((u : ℕ) → ac.has_role s temporary u ≡ false)
      → IsBurnt ac (id "MINTER_ROLE") temporary (burnt ac id core to_address a n s)
  burnt-IsBurnt s distinct nobody = record {
    minter_admin =
        simp (ac.admin-revoked, ac.admin-set_role_admin, ac.admin-granted) (ground arith);
    own_admin = simp (ac.admin-revoked, ac.admin-set_role_admin, ac.admin-granted) (ground arith);
    nobody = λ u.
        simp (ac.has_role-revoked, ac.has_role-set_role_admin, ac.has_role-granted)
          (ground (arith, nobody u));
  }

  -- Who is a minter afterwards, by the names of the proposal.
  minters_after :
      (s : ac.State) (u : ℕ)
      → NoCollision id
      → is_minter ac id core u (burnt ac id core to_address a n s) ≡ (
          if to_address n.equity_minter == u
          then false
          else if to_address n.dao_timelock == u
          then false
          else if to_address n.new_psm == u
          then true
          else if to_address n.old_psm == u
          then false
          else is_minter ac id core u s)
  unfolding is_minter
  minters_after s u distinct =
      simp (ac.has_role-revoked, ac.has_role-set_role_admin, ac.has_role-granted) (ground arith)

  named :
      (x : ℕ) {m : Bool}
      → (if to_address n.equity_minter == x
          then false
          else if to_address n.dao_timelock == x
          then false
          else if to_address n.new_psm == x
          then true
          else if to_address n.old_psm == x
          then false
          else m)
        ≡ true
      → (m ≡ true
          → x ≢ to_address n.old_psm
          → x ≢ to_address n.dao_timelock
          → x ≡ to_address n.equity_minter)
      → x ≡ to_address n.new_psm
  named x h before = ground (arith, before)

  -- Run by the DAO's timelock, over addresses that have every name the commands look up and role
  -- names with different hashes, from roles where it is a governor, GOVERN_ROLE administers the two
  -- roles that the proposal revokes, and nobody holds the temporary role, all commands to Core
  -- succeed. Afterwards MINTER_ROLE is burnt, and the minters are those from before without the old
  -- PSM, the timelock and the equity minter, and with the new PSM (but for a name that the last
  -- two revocations hit as well).
  pub tip_121c_burns_minting :
      (s : ac.State)
      → NoCollision id
      → IsReady ac id core (to_address n.dao_timelock) s
      → ((u : ℕ) → ac.has_role s temporary u ≡ false)
      → (t : ac.State) × (run_core ac id core to_address
            (to_address n.dao_timelock)
            a
            (tip_121c id).commands
            s
          ≡ ok t)
        × IsBurnt ac (id "MINTER_ROLE") temporary t
        × ((u : ℕ)
            → is_minter ac id core u t ≡ (
                if to_address n.equity_minter == u
                then false
                else if to_address n.dao_timelock == u
                then false
                else if to_address n.new_psm == u
                then true
                else if to_address n.old_psm == u
                then false
                else is_minter ac id core u s))
  tip_121c_burns_minting s distinct ready nobody = (
    burnt ac id core to_address a n s,
    tip_121c-runs ac id core to_address a n s distinct ready,
    burnt-IsBurnt s distinct nobody,
    λ u. minters_after s u distinct,
  )

  -- Under the same conditions, if only the old PSM, the timelock and the equity minter were minters
  -- before the proposal, then
  -- only the new PSM is one after it, and stays the only one through every history of calls to Core
  -- in which no `createRole` names MINTER_ROLE or the temporary role.
  pub only_new_psm_mints :
      (s t u : ac.State) (x : ℕ)
      → NoCollision id
      → IsReady ac id core (to_address n.dao_timelock) s
      → ((y : ℕ) → ac.has_role s temporary y ≡ false)
      → ((y : ℕ)
          → is_minter ac id core y s ≡ true
          → y ≢ to_address n.old_psm
          → y ≢ to_address n.dao_timelock
          → y ≡ to_address n.equity_minter)
      → run_core ac id core to_address (to_address n.dao_timelock) a (tip_121c id).commands s ≡ ok t
      → History ac id core (LeavesAdmins (id "MINTER_ROLE") temporary) t u
      → is_minter ac id core x u ≡ true
      → x ≡ to_address n.new_psm
  unfolding is_minter
  only_new_psm_mints s t u x distinct ready nobody before run past mints =
      let same : burnt ac id core to_address a n s ≡ t =
        ok-injective (sym (tip_121c-runs ac id core to_address a n s distinct ready) ∙ run) in
      let locked =
        subst (IsBurnt ac (id "MINTER_ROLE") temporary) same (burnt-IsBurnt s distinct nobody) in
      let minted =
        (History-Keeps ac id core (id "MINTER_ROLE") temporary past locked).no_more x mints in
      let at_end = subst (λ y. ac.has_role y (id "MINTER_ROLE") x ≡ true) (sym same) minted in
      named x (sym (minters_after s x distinct) ∙ at_end) (before x)
