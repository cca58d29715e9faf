-- ===== src/Peg/Backing.antt =====
-- The DAI of SimpleFeiDaiPSM.sol covers the FEI outside it, and its holders can redeem it, while the
-- contract is the only minter of FEI and no incentive contract is set.
use tribe.Base.{ℕ, ◌+◌, ◌≤◌, ◌≡◌, ◌≢◌, refl, ok, >>=-ok, require-then-ok, leb, le→leb, arith}
use tribe.Evm.{Erc20}
use tribe.Peg.Fei.{Supply, State, Incentivize}
use tribe.Peg.Fei
use tribe.Peg.Incentives.{HasNoIncentives, transfer_from-ok}
use tribe.Peg.Covered.{IsBacked, IsOnlyMinter, History, History-Covers}
use tribe.Peg.{redeem}

module _ (e : Erc20) (b : Supply e) (incentivize : Incentivize e) (dai this : ℕ)
    (apart : dai ≢ b.token) where
  -- The FEI outside the contract stays at most the DAI in it, along every history of calls that
  -- returned: mints, redemptions and burns of the contract by other accounts, and mints, burns,
  -- transfers and pauses of Fei.sol, where the contract calls Fei.sol in its own functions only. It
  -- holds where at first and on the way the contract is the only minter in Core and Fei.sol names no
  -- incentive contract; where calls elsewhere leave FEI as it is and the contract's DAI at least as
  -- it was; and where DAI is another token than FEI.
  pub History-IsBacked :
      {s u : State e}
      → HasNoIncentives s
      → IsOnlyMinter e b incentivize dai this s.roles
      → IsBacked e b incentivize dai this s.world
      → History e b incentivize dai this s u
      → IsBacked e b incentivize dai this u.world
  History-IsBacked none only backed past =
      (History-Covers e b incentivize dai this apart past
        (record { none = none; only = only; backed = backed })).backed

  -- After every history of calls of the contract and of Fei.sol that returned, an account that has
  -- approved its FEI can redeem any amount of it, at par: `redeem` returns the amount. At first the
  -- FEI outside the contract is at most the DAI in it; at first and on the way the contract is the
  -- only minter in Core and Fei.sol names no incentive contract; calls elsewhere leave FEI as it is
  -- and take none of the contract's DAI. DAI is another token than FEI, the account's FEI and the
  -- contract's are within the supply, the minimum is at most the amount, and no address is zero.
  pub History-redeem_succeeds :
      {s u : State e} (sender to amount minimum : ℕ)
      → HasNoIncentives s
      → IsOnlyMinter e b incentivize dai this s.roles
      → IsBacked e b incentivize dai this s.world
      → History e b incentivize dai this s u
      → this ≢ 0
      → to ≢ 0
      → minimum ≤ amount
      → amount ≤ e.balance_of u.world b.token sender
      → amount ≤ e.allowance u.world b.token sender this
      → e.balance_of u.world b.token sender + e.balance_of u.world b.token this
        ≤ b.total_supply u.world
      → (u' : State e) × (redeem e b incentivize dai this sender to amount minimum u
          ≡ ok (amount, u'))
  unfolding redeem
  History-redeem_succeeds {s} {u} sender to amount minimum none only backed past contract receiver
        low held allowed within =
      let k =
        History-Covers e b incentivize dai this apart past
          (record { none = none; only = only; backed = backed }) in
      let (w, hw) =
        e.transfer_from_succeeds b.token this sender this amount u.world contract held allowed in
      let taken = (e.transfer_from-Moved b.token this sender this amount u.world w hw).1 dai this in
      let covered : amount ≤ e.balance_of w dai this =
        ground (arith, apart, taken, held, within, k.backed) in
      let (w', hd) = e.transfer_succeeds dai this to amount w receiver covered in
      (
        record u { world = w' },
        require-then-ok (leb minimum amount) _ _ (le→leb minimum amount low) (
            >>=-ok (Fei.transfer_from e b incentivize this sender this amount u) _
              (record u { world = w })
              (transfer_from-ok e b incentivize this sender this amount u w k.none hw)
              (>>=-ok (e.transfer dai this to amount w) _ w' hd refl)),
      )
