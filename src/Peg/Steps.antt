-- ===== src/Peg/Steps.antt =====
-- What a mint and a redemption of SimpleFeiDaiPSM.sol that return have done.
use tribe.Base.{ℕ, ◌≡◌, refl, ap, subst, ok, >>=-eq-ok, require-then-eq-ok, ok-injective, leb}
use tribe.Evm.{Erc20}
use tribe.Peg.Fei.{Supply, State, Incentivize}
use tribe.Peg.Fei
use tribe.Peg.Incentives.{HasNoIncentives, transfer_from_parts, mint_parts}
use tribe.Peg.{mint, redeem}

module _ (e : Erc20) (b : Supply e) (incentivize : Incentivize e) (dai this : ℕ) where
  pub mint_steps :
      (sender to amount minimum out : ℕ) (s s' : State e)
      → mint e b incentivize dai this sender to amount minimum s ≡ ok (out, s')
      → (w : e.World) × ((e.transfer_from dai this sender this amount s.world ≡ ok w)
          × (b.mint to amount w ≡ ok s'.world)
          × (s' ≡ record s { world = s'.world })
          × (out ≡ amount))
  unfolding mint
  mint_steps sender to amount minimum out s s' h =
      let (_, h1) = require-then-eq-ok (leb minimum amount) _ _ h in
      let (w, hw, h2) = >>=-eq-ok (e.transfer_from dai this sender this amount s.world) _ h1 in
      let (u, hm, h3) = >>=-eq-ok (Fei.mint e b this to amount (record s { world = w })) _ h2 in
      let (_, (minted, same)) = mint_parts e b this to amount (record s { world = w }) u hm in
      let both = ok-injective h3 in
      (
        w,
        subst
            (λ (x : ℕ × State e).
              (e.transfer_from dai this sender this amount s.world ≡ ok w)
              × (b.mint to amount w ≡ ok x.1.world)
              × (x.1 ≡ record s { world = x.1.world })
              × (x.0 ≡ amount))
            both (hw, minted, same, refl),
      )

  pub redeem_steps :
      (sender to amount minimum out : ℕ) (s s' : State e)
      → HasNoIncentives s
      → redeem e b incentivize dai this sender to amount minimum s ≡ ok (out, s')
      → (w : e.World) × ((e.transfer_from b.token this sender this amount s.world ≡ ok w)
          × (e.transfer dai this to amount w ≡ ok s'.world)
          × (s' ≡ record s { world = s'.world })
          × (out ≡ amount))
  unfolding redeem
  redeem_steps sender to amount minimum out s s' none h =
      let (_, h1) = require-then-eq-ok (leb minimum amount) _ _ h in
      let (u, hu, h2) =
        >>=-eq-ok (Fei.transfer_from e b incentivize this sender this amount s) _ h1 in
      let (w, hw, h3) = >>=-eq-ok (e.transfer dai this to amount u.world) _ h2 in
      let (taken, same) = transfer_from_parts e b incentivize this sender this amount s u none hu in
      let both = ok-injective h3 in
      (
        u.world,
        subst
            (λ (x : ℕ × State e).
              (e.transfer_from b.token this sender this amount s.world ≡ ok u.world)
              × (e.transfer dai this to amount u.world ≡ ok x.1.world)
              × (x.1 ≡ record s { world = x.1.world })
              × (x.0 ≡ amount))
            both (taken, hw, ap (λ (x : State e). record x { world = w }) same, refl),
      )
