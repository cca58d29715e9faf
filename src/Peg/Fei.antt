-- ===== src/Peg/Fei.antt =====
-- contracts/fei/Fei.sol: the roles and the pause that guard minting and burning, and the incentive
-- contracts that run after every transfer. OpenZeppelin's ERC20 below it is `Erc20` with `Supply`,
-- and the incentive contracts are a parameter, which may do anything to the state. `permit` sets
-- allowances only.
use tribe.Base.{
  ℕ, ◌+◌, ◌≡◌, Bool, not, ◌||◌, ◌&&◌, Result, ok, ◌>>=◌, ◌>>◌, require, ◌==◌, if◌then◌else◌, update,
}
use tribe.Evm.{Erc20}

-- `_mint`, `_burn` and `totalSupply` of OpenZeppelin's ERC20 for one token. A call that reverts is
-- an error.
pub record Supply (e : Erc20) : Type 0 where
  pub token : ℕ
  pub total_supply : e.World → ℕ
  -- account, amount
  pub mint : ℕ → ℕ → e.World → Result e.World
  pub burn : ℕ → ℕ → e.World → Result e.World
  pub mint-Minted :
      (account amount : ℕ) (w w' : e.World)
      → mint account amount w ≡ ok w'
      → (total_supply w' ≡ total_supply w + amount)
        × ((t h : ℕ)
            → e.balance_of w' t h
              ≡ e.balance_of w t h + (if t == token && h == account then amount else 0))
  pub burn-Burnt :
      (account amount : ℕ) (w w' : e.World)
      → burn account amount w ≡ ok w'
      → (total_supply w ≡ total_supply w' + amount)
        × ((t h : ℕ)
            → e.balance_of w t h
              ≡ e.balance_of w' t h + (if t == token && h == account then amount else 0))
  pub transfer-supply :
      (t source target amount : ℕ) (w w' : e.World)
      → e.transfer t source target amount w ≡ ok w'
      → total_supply w' ≡ total_supply w
  pub transfer_from-supply :
      (t caller source target amount : ℕ) (w w' : e.World)
      → e.transfer_from t caller source target amount w ≡ ok w'
      → total_supply w' ≡ total_supply w

-- What Core answers about an account.
pub record Roles : Type 0 where
  pub is_minter : ℕ → Bool
  pub is_burner : ℕ → Bool
  pub is_governor : ℕ → Bool
  pub is_guardian_or_governor : ℕ → Bool

-- The storage of Fei.sol beside OpenZeppelin's, the roles in Core, and the tokens.
pub record State (e : Erc20) : Type 0 where
  pub roles : Roles
  pub paused : Bool
  pub incentive_contract : ℕ → ℕ
  pub world : e.World

-- `IIncentive.incentivize` of a contract: contract, sender, recipient, operator, amount.
abbrev pub Incentivize : Erc20 → Type 0
Incentivize e = ℕ → ℕ → ℕ → ℕ → ℕ → State e → Result (State e)

module _ (e : Erc20) (b : Supply e) where
  unfoldable pub set_incentive_contract :
      (caller account incentive : ℕ) → State e → Result (State e)
  set_incentive_contract caller account incentive s = do
    require (s.roles.is_governor caller) "CoreRef: Caller is not a governor"
    ok (record s { incentive_contract = update s.incentive_contract account incentive })

  unfoldable pub mint : (caller account amount : ℕ) → State e → Result (State e)
  mint caller account amount s = do
    require (s.roles.is_minter caller) "CoreRef: Caller is not a minter"
    require (not s.paused) "Pausable: paused"
    w ← b.mint account amount s.world
    ok (record s { world = w })

  unfoldable pub burn : (caller amount : ℕ) → State e → Result (State e)
  burn caller amount s = do w ← b.burn caller amount s.world; ok (record s { world = w })

  unfoldable pub burn_from : (caller account amount : ℕ) → State e → Result (State e)
  burn_from caller account amount s = do
    require (s.roles.is_burner caller) "CoreRef: Caller is not a burner"
    require (not s.paused) "Pausable: paused"
    w ← b.burn account amount s.world
    ok (record s { world = w })

  -- `pause` and `unpause` of CoreRef.sol
  unfoldable pub set_paused : Bool → (caller : ℕ) → State e → Result (State e)
  set_paused to caller s = do
    require (s.roles.is_guardian_or_governor caller) "CoreRef: Caller is not a guardian or governor"
    require (if to then not s.paused else s.paused)
        (if to then "Pausable: paused" else "Pausable: not paused")
    ok (record s { paused = to })

  module _ (incentivize : Incentivize e) where
    unfoldable pub apply_incentive :
        (incentive sender recipient operator amount : ℕ) → State e → Result (State e)
    apply_incentive incentive sender recipient operator amount s =
        if incentive == 0 then ok s else incentivize incentive sender recipient operator amount s

    -- The incentives of the sender, the recipient, the operator if another account, and of all.
    unfoldable pub check_and_apply_incentives :
        (sender recipient operator amount : ℕ) → State e → Result (State e)
    check_and_apply_incentives sender recipient operator amount s = do
      s1 ← apply_incentive (s.incentive_contract sender) sender recipient operator amount s
      s2 ← apply_incentive (s1.incentive_contract recipient) sender recipient operator amount s1
      s3 ←
          if operator == sender || operator == recipient
          then ok s2
          else apply_incentive (s2.incentive_contract operator) sender recipient operator amount s2
      apply_incentive (s3.incentive_contract 0) sender recipient operator amount s3

    -- `transfer`: OpenZeppelin's, through the `_transfer` of Fei.sol
    unfoldable pub transfer : (caller recipient amount : ℕ) → State e → Result (State e)
    transfer caller recipient amount s = do
      w ← e.transfer b.token caller recipient amount s.world
      check_and_apply_incentives caller recipient caller amount (record s { world = w })

    -- `transferFrom`: OpenZeppelin's, which takes from the allowance first
    unfoldable pub transfer_from : (caller sender recipient amount : ℕ) → State e → Result (State e)
    transfer_from caller sender recipient amount s = do
      w ← e.transfer_from b.token caller sender recipient amount s.world
      check_and_apply_incentives sender recipient caller amount (record s { world = w })
