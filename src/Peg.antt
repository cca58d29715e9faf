-- ===== src/Peg.antt =====
-- contracts/peg/SimpleFeiDaiPSM.sol: FEI for DAI and back, at par. The contract keeps no storage, so
-- its functions are on the state of Fei.sol, which is modelled in Peg/Fei, with DAI beside it.
pub mod Fei
pub mod Incentives
pub mod Steps
pub mod Covered
pub mod Backing
pub mod RoundTrip
mod Tests
use tribe.Base.{ℕ, Result, ok, err, ◌>>=◌, ◌>>◌, require, leb, ◌==◌, if◌then◌else◌}
use tribe.Evm.{Erc20}
use tribe.Peg.Fei.{Supply, State, Incentivize}
use tribe.Peg.Fei

module _ (e : Erc20) (b : Supply e) (incentivize : Incentivize e) (dai this : ℕ) where
  -- `mint`, which returns the amount that it mints
  unfoldable pub mint : (sender to amount minimum : ℕ) → State e → Result (ℕ × State e)
  mint sender to amount minimum s = do
    require (leb minimum amount) "SimpleFeiDaiPSM: Mint not enough out"
    w ← e.transfer_from dai this sender this amount s.world
    s' ← Fei.mint e b this to amount (record s { world = w })
    ok (amount, s')

  unfoldable pub redeem : (sender to amount minimum : ℕ) → State e → Result (ℕ × State e)
  redeem sender to amount minimum s = do
    require (leb minimum amount) "SimpleFeiDaiPSM: Redeem not enough out"
    s' ← Fei.transfer_from e b incentivize this sender this amount s
    w ← e.transfer dai this to amount s'.world
    ok (amount, record s' { world = w })

  abbrev pub get_mint_amount_out : ℕ → ℕ
  get_mint_amount_out amount = amount

  abbrev pub get_redeem_amount_out : ℕ → ℕ
  get_redeem_amount_out amount = amount

  abbrev pub balance : State e → ℕ
  balance s = e.balance_of s.world dai this

  abbrev pub resistant_balance_and_fei : State e → ℕ × ℕ
  resistant_balance_and_fei s = (e.balance_of s.world dai this, e.balance_of s.world b.token this)

  unfoldable pub burn_fei_held : State e → Result (State e)
  burn_fei_held s =
      let held = e.balance_of s.world b.token this in
      if held == 0 then ok s else Fei.burn e b this held s
