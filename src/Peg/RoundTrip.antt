-- ===== src/Peg/RoundTrip.antt =====
-- FEI minted and redeemed again by SimpleFeiDaiPSM.sol.
use tribe.Base.{
  ℕ, ◌+◌, ◌≤◌, ◌≡◌, ◌≢◌, refl, ◌&&◌, ok, >>=-ok, require-then-ok, leb, le→leb, ◌==◌, if◌then◌else◌,
  arith, ap, ◌∙◌,
}
use tribe.Evm.{Erc20}
use tribe.Peg.Fei.{Supply, State, Incentivize}
use tribe.Peg.Fei
use tribe.Peg.Incentives.{HasNoIncentives, transfer_from-ok}
use tribe.Peg.Steps.{mint_steps}
use tribe.Peg.{mint, redeem}

-- While Fei.sol names no incentive contract, who mints FEI for himself can redeem it at once, if he
-- approves it, and has then what he had before: every balance of every token is as it was, but for
-- the FEI that the contract keeps, which is what the supply has grown by. DAI is another token than
-- FEI, and the caller is another account than the contract, neither of them the zero address.
pub mint-redeem :
    (e : Erc20) (b : Supply e) (incentivize : Incentivize e)
    (dai this sender amount minimum out : ℕ) (s s1 : State e)
    → HasNoIncentives s
    → dai ≢ b.token
    → sender ≢ this
    → this ≢ 0
    → sender ≢ 0
    → mint e b incentivize dai this sender sender amount minimum s ≡ ok (out, s1)
    → out ≤ e.allowance s1.world b.token sender this
    → (s2 : State e) × ((redeem e b incentivize dai this sender sender out out s1 ≡ ok (out, s2))
        × ((t h : ℕ)
            → e.balance_of s2.world t h
              ≡ e.balance_of s.world t h + (if t == b.token && h == this then amount else 0))
        × (b.total_supply s2.world ≡ b.total_supply s.world + amount))
unfolding redeem
mint-redeem e b incentivize dai this sender amount minimum out s s1 none apart other contract
      account h allowed =
    let (w0, (hw, hm, same, out_amount)) =
      mint_steps e b incentivize dai this sender sender amount minimum out s s1 h in
    let none1 : HasNoIncentives s1 =
      λ a. ap (λ (x : State e). x.incentive_contract a) same ∙ none a in
    let given = (e.transfer_from-Moved dai this sender this amount s.world w0 hw).1 in
    let (supply, minted) = b.mint-Minted sender amount w0 s1.world hm in
    let kept = b.transfer_from-supply dai this sender this amount s.world w0 hw in
    let held : out ≤ e.balance_of s1.world b.token sender =
      ground (arith, minted b.token sender, out_amount) in
    let (u, hu) =
      e.transfer_from_succeeds b.token this sender this out s1.world contract held allowed in
    let taken = (e.transfer_from-Moved b.token this sender this out s1.world u hu).1 in
    let kept' = b.transfer_from-supply b.token this sender this out s1.world u hu in
    let covered : out ≤ e.balance_of u dai this =
      ground (arith, apart, other, given dai this, minted dai this, taken dai this, out_amount) in
    let (w2, hd) = e.transfer_succeeds dai this sender out u account covered in
    let paid = (e.transfer-Moved dai this sender out u w2 hd).1 in
    let kept'' = b.transfer-supply dai this sender out u w2 hd in
    (
      record s1 { world = w2 },
      (
        require-then-ok (leb out out) _ _ (le→leb out out (omega arith)) (
            >>=-ok (Fei.transfer_from e b incentivize this sender this out s1) _
              (record s1 { world = u })
              (transfer_from-ok e b incentivize this sender this out s1 u none1 hu)
              (>>=-ok (e.transfer dai this sender out u) _ w2 hd refl)),
        λ t x. ground (arith, apart, other, given t x, minted t x, taken t x, paid t x, out_amount),
        omega (arith, supply, kept, kept', kept''),
      ),
    )
