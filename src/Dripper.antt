-- ===== src/Dripper.antt =====
-- contracts/shutdown/fuse/MerkleRedeemerDripper.sol over contracts/pcv/utils/ERC20Dripper.sol and
-- contracts/utils/Timed.sol: tokens that go to the redeemer in portions, one a period.
pub mod Keeps
pub mod Pace
mod Tests
use tribe.Base.{
  ℕ, ◌≡◌, Bool, true, false, not, Result, ok, ◌>>=◌, ◌>>◌, require, ltb, ◌==◌, if◌then◌else◌,
  checked_sub,
}
use tribe.Evm.{Erc20}

pub record Dripper : Type 0 where
  pub target : ℕ
  pub token : ℕ
  pub amount_to_drip : ℕ
  pub start_time : ℕ
  pub duration : ℕ
  pub paused : Bool

pub record Funds (e : Erc20) : Type 0 where
  pub dripper : Dripper
  pub world : e.World

-- `Timed.isTimeStarted`
unfoldable pub is_time_started : Dripper → Bool
is_time_started d = not (d.start_time == 0)

-- `Timed.timeSinceStart`, at a block's timestamp
unfoldable pub time_since_start : ℕ → Dripper → Result ℕ
time_since_start now d =
    if not (is_time_started d)
    then ok 0
    else checked_sub now d.start_time >>= λ passed.
        ok (if ltb d.duration passed then d.duration else passed)

-- `Timed.remainingTime`
unfoldable pub remaining_time : ℕ → Dripper → Result ℕ
remaining_time now d = do since ← time_since_start now d; checked_sub d.duration since

-- `Timed.isTimeEnded`
unfoldable pub is_time_ended : ℕ → Dripper → Result Bool
is_time_ended now d = do remaining ← remaining_time now d; ok (remaining == 0)

-- The constructors of `Timed` and of `ERC20Dripper`, in this order.
unfoldable pub constructor : (target period amount token now : ℕ) → Result Dripper
constructor target period amount token now = do
  require (not (period == 0)) "Timed: zero duration"
  require (not (target == 0)) "ERC20Dripper: invalid address"
  require (not (token == 0)) "ERC20Dripper: invalid token address"
  require (ltb 0 amount) "ERC20Dripper: invalid drip amount"
  ok (record {
    target = target;
    token = token;
    amount_to_drip = amount;
    start_time = now;
    duration = period;
    paused = false;
  })

-- What Core answers about a caller.
pub record Rights : Type 0 where
  pub is_pcv_controller : ℕ → Bool
  pub is_guardian_or_governor : ℕ → Bool

module _ (e : Erc20) (this : ℕ) where
  -- `PCVDeposit._withdrawERC20`
  unfoldable pub withdraw_erc20 : (token recipient amount : ℕ) → e.World → Result e.World
  withdraw_erc20 token recipient amount w = e.transfer token this recipient amount w

  -- `ERC20Dripper.drip`: its modifiers, the timer and the transfer.
  unfoldable pub erc20_drip : ℕ → Funds e → Result (Funds e)
  erc20_drip now s = do
    ended ← is_time_ended now s.dripper
    require ended "Timed: time not ended"
    require (not s.dripper.paused) "Pausable: paused"
    w ← withdraw_erc20 s.dripper.token s.dripper.target s.dripper.amount_to_drip s.world
    ok (record { dripper = record s.dripper { start_time = now }; world = w })

  -- `MerkleRedeemerDripper.drip`
  unfoldable pub drip : ℕ → Funds e → Result (Funds e)
  drip now s = do
    require (ltb (e.balance_of s.world s.dripper.token s.dripper.target) s.dripper.amount_to_drip)
        "MerkleRedeemerDripper: dripper target already has enough tokens."
    erc20_drip now s

  -- `ERC20Dripper.withdraw`
  unfoldable pub withdraw : Rights → ℕ → (recipient amount : ℕ) → Funds e → Result (Funds e)
  withdraw rights sender recipient amount s = do
    require (rights.is_pcv_controller sender) "CoreRef: Caller is not a PCV controller"
    w ← withdraw_erc20 s.dripper.token recipient amount s.world
    ok (record { dripper = s.dripper; world = w })

  -- `PCVDeposit.withdrawERC20`, of any token
  unfoldable pub withdraw_token :
      Rights → ℕ → (token recipient amount : ℕ) → Funds e → Result (Funds e)
  withdraw_token rights sender token recipient amount s = do
    require (rights.is_pcv_controller sender) "CoreRef: Caller is not a PCV controller"
    w ← withdraw_erc20 token recipient amount s.world
    ok (record { dripper = s.dripper; world = w })

  -- `PCVDeposit.withdrawETH`, with `Address.sendValue` from the contract
  unfoldable pub withdraw_eth :
      (send_value : (recipient amount : ℕ) → e.World → Result e.World)
      → Rights
      → ℕ
      → (recipient amount : ℕ) → Funds e
      → Result (Funds e)
  withdraw_eth send_value rights sender recipient amount s = do
    require (rights.is_pcv_controller sender) "CoreRef: Caller is not a PCV controller"
    w ← send_value recipient amount s.world
    ok (record { dripper = s.dripper; world = w })

  -- `ERC20Dripper.balance`
  abbrev pub balance : Funds e → ℕ
  balance s = e.balance_of s.world s.dripper.token this

  -- `CoreRef.pause` and `CoreRef.unpause`, which refuse a state that is there.
  unfoldable pub set_paused : Bool → Rights → ℕ → Funds e → Result (Funds e)
  set_paused true rights sender s = do
    require (rights.is_guardian_or_governor sender) "CoreRef: Caller is not a guardian or governor"
    require (not s.dripper.paused) "Pausable: paused"
    ok (record { dripper = record s.dripper { paused = true }; world = s.world })
  set_paused false rights sender s = do
    require (rights.is_guardian_or_governor sender) "CoreRef: Caller is not a guardian or governor"
    require s.dripper.paused "Pausable: not paused"
    ok (record { dripper = record s.dripper { paused = false }; world = s.world })
