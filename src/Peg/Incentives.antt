-- ===== src/Peg/Incentives.antt =====
-- The functions of Fei.sol while it names no incentive contract.
use tribe.Base.{
  ℕ, ◌≡◌, refl, sym, subst, ◌∙◌, ok, >>=-eq-ok, >>=-ok, require-then-eq-ok, ok-injective, not, ◌==◌,
  ◌||◌, Bool-cases, inl, inr, true, Bool,
}
use tribe.Evm.{Erc20}
use tribe.Peg.Fei.{
  Supply, State, Incentivize, mint, burn, burn_from, set_paused, apply_incentive,
  check_and_apply_incentives, transfer, transfer_from,
}

-- No account has an incentive contract, and none is for every transfer.
abbrev pub HasNoIncentives : {e : Erc20} → State e → Type 0
HasNoIncentives s = (a : ℕ) → s.incentive_contract a ≡ 0

module _ (e : Erc20) (b : Supply e) (incentivize : Incentivize e) where
  check_and_apply_incentives-none :
      (sender recipient operator amount : ℕ) (s : State e)
      → HasNoIncentives s
      → check_and_apply_incentives e b incentivize sender recipient operator amount s ≡ ok s
  unfolding check_and_apply_incentives apply_incentive
  check_and_apply_incentives-none sender recipient operator amount s none =
      elim (Bool-cases (operator == sender || operator == recipient)) [
        | inl near ↦ rw (none sender, none recipient, near, none 0) refl
        | inr far ↦ rw (none sender, none recipient, far, none operator, none 0) refl
      ]

  pub transfer_from-ok :
      (caller sender recipient amount : ℕ) (s : State e) (w : e.World)
      → HasNoIncentives s
      → e.transfer_from b.token caller sender recipient amount s.world ≡ ok w
      → transfer_from e b incentivize caller sender recipient amount s ≡ ok (record s { world = w })
  unfolding transfer_from
  transfer_from-ok caller sender recipient amount s w none h =
      >>=-ok (e.transfer_from b.token caller sender recipient amount s.world) _ w h (
        check_and_apply_incentives-none sender recipient caller amount (record s { world = w })
          none)

  -- A transfer moves the tokens and changes nothing else.
  pub transfer_from_parts :
      (caller sender recipient amount : ℕ) (s s' : State e)
      → HasNoIncentives s
      → transfer_from e b incentivize caller sender recipient amount s ≡ ok s'
      → (e.transfer_from b.token caller sender recipient amount s.world ≡ ok s'.world)
        × (s' ≡ record s { world = s'.world })
  unfolding transfer_from
  transfer_from_parts caller sender recipient amount s s' none h =
      let (w, hw, h1) =
        >>=-eq-ok (e.transfer_from b.token caller sender recipient amount s.world) _ h in
      let same = ok-injective (
        sym (
          check_and_apply_incentives-none sender recipient caller amount (record s { world = w })
            none)
        ∙ h1) in
      subst
        (λ x.
          (e.transfer_from b.token caller sender recipient amount s.world ≡ ok x.world)
          × (x ≡ record s { world = x.world }))
        same (hw, refl)

  pub transfer_parts :
      (caller recipient amount : ℕ) (s s' : State e)
      → HasNoIncentives s
      → transfer e b incentivize caller recipient amount s ≡ ok s'
      → (e.transfer b.token caller recipient amount s.world ≡ ok s'.world)
        × (s' ≡ record s { world = s'.world })
  unfolding transfer
  transfer_parts caller recipient amount s s' none h =
      let (w, hw, h1) = >>=-eq-ok (e.transfer b.token caller recipient amount s.world) _ h in
      let same = ok-injective (
        sym (
          check_and_apply_incentives-none caller recipient caller amount (record s { world = w })
            none)
        ∙ h1) in
      subst
        (λ x.
          (e.transfer b.token caller recipient amount s.world ≡ ok x.world)
          × (x ≡ record s { world = x.world }))
        same (hw, refl)

module _ (e : Erc20) (b : Supply e) where
  pub mint_parts :
      (caller account amount : ℕ) (s s' : State e)
      → mint e b caller account amount s ≡ ok s'
      → (s.roles.is_minter caller ≡ true)
        × ((b.mint account amount s.world ≡ ok s'.world) × (s' ≡ record s { world = s'.world }))
  unfolding mint
  mint_parts caller account amount s s' h =
      let (allowed, h1) = require-then-eq-ok (s.roles.is_minter caller) _ _ h in
      let (_, h2) = require-then-eq-ok (not s.paused) _ _ h1 in
      let (w, hw, h3) = >>=-eq-ok (b.mint account amount s.world) _ h2 in
      (
        allowed,
        subst
            (λ x. (b.mint account amount s.world ≡ ok x.world) × (x ≡ record s { world = x.world }))
            (ok-injective h3) (hw, refl),
      )

  pub burn_parts :
      (caller amount : ℕ) (s s' : State e)
      → burn e b caller amount s ≡ ok s'
      → (b.burn caller amount s.world ≡ ok s'.world) × (s' ≡ record s { world = s'.world })
  unfolding burn
  burn_parts caller amount s s' h =
      let (w, hw, h1) = >>=-eq-ok (b.burn caller amount s.world) _ h in
      subst (λ x. (b.burn caller amount s.world ≡ ok x.world) × (x ≡ record s { world = x.world }))
        (ok-injective h1) (hw, refl)

  pub burn_from_parts :
      (caller account amount : ℕ) (s s' : State e)
      → burn_from e b caller account amount s ≡ ok s'
      → (b.burn account amount s.world ≡ ok s'.world) × (s' ≡ record s { world = s'.world })
  unfolding burn_from
  burn_from_parts caller account amount s s' h =
      let (_, h1) = require-then-eq-ok (s.roles.is_burner caller) _ _ h in
      let (_, h2) = require-then-eq-ok (not s.paused) _ _ h1 in
      let (w, hw, h3) = >>=-eq-ok (b.burn account amount s.world) _ h2 in
      subst (λ x. (b.burn account amount s.world ≡ ok x.world) × (x ≡ record s { world = x.world }))
        (ok-injective h3) (hw, refl)

  pub set_paused_parts :
      (to : Bool) (caller : ℕ) (s s' : State e)
      → set_paused e b to caller s ≡ ok s'
      → s' ≡ record s { paused = to }
  unfolding set_paused
  set_paused_parts to caller s s' h =
      let (_, h1) = require-then-eq-ok (s.roles.is_guardian_or_governor caller) _ _ h in
      let (_, h2) = require-then-eq-ok _ _ _ h1 in sym (ok-injective h2)
