-- ===== src/Tips/Tip121b.antt =====
-- proposals/description/tip_121b.ts and proposals/dao/tip_121b.ts: FEI for the redemption, a seed
-- for the redeemer and the rest for the dripper; the dripper's deployment; and the proposal's own
-- validation. Minting ends in OpenZeppelin's ERC20, a parameter.
use tribe.Base.{
  ℕ, ◌+◌, ◌-◌, ◌*◌, ◌%◌, ◌^◌, ◌≡◌, ◌&&◌, String, some, List, [], ◌∷◌, Result, ok, err, ◌>>=◌, ◌>>◌,
  require, str_eq, ◌==◌, if◌then◌else◌,
}
use tribe.Evm.{Erc20}
use tribe.Js.{get}
use tribe.Types.{
  NamedAddresses, Argument, address, number, TemplatedProposalCommand, TemplatedProposalDescription,
}
use tribe.Dripper.{Dripper, Funds, constructor, drip}
use tribe.Redeemer.{Redeemer}
use tribe.Tips.Tip121c.{command}

abbrev pub parse_ether : ℕ → ℕ
parse_ether n = n * 10 ^ 18

abbrev pub total : ℕ
total = parse_ether 50000000

abbrev pub drip_size : ℕ
drip_size = parse_ether 2500000

abbrev pub initial_fei_amount : ℕ
initial_fei_amount = drip_size * 2

abbrev pub dripper_fei_amount : ℕ
dripper_fei_amount = total - initial_fei_amount

unfoldable pub tip_121b : TemplatedProposalDescription
tip_121b = record {
  title = "Part 2: RariFuse Hack Repayment";
  commands =
      command "fei" "0" "mint(address,uint256)"
        (λ a. address (get a "rariMerkleRedeemer") ∷ number initial_fei_amount ∷ [])
        "Mint initial Fei amount to the RariMerkleRedeemer"
      ∷ command "fei" "0" "mint(address,uint256)"
          (λ a. address (get a "merkleRedeemerDripper") ∷ number dripper_fei_amount ∷ [])
          "Mint remainder of Fei to the MerkleRedeemerDripper"
      ∷ [];
  description = "\n  [Part 2: RariFuse Hack Repayment] /n/n\n  [<does stuff>] \n\n\n  ";
}

-- FEI: who may mint, and `_mint`, which adds to one balance.
pub record Fei (e : Erc20) : Type 0 where
  pub token : ℕ
  pub mint_tokens : ℕ → ℕ → e.World → Result e.World
  pub mint-Adds :
      (account amount : ℕ) (w w' : e.World)
      → mint_tokens account amount w ≡ ok w'
      → (t h : ℕ)
      → e.balance_of w' t h
        ≡ e.balance_of w t h + (if t == token && h == account then amount else 0)

module _ (e : Erc20) (f : Fei e) (to_address : String → ℕ) where
  call_fei : String → List Argument → e.World → Result e.World
  call_fei method (address (some x) ∷ number n ∷ []) w =
      if str_eq method "mint(address,uint256)"
      then f.mint_tokens (to_address x) n w
      else err "no matching function"
  call_fei method _ w = err "invalid arguments"

  -- The commands, run by an executor that Core lets mint.
  unfoldable pub run_fei : NamedAddresses → List TemplatedProposalCommand → e.World → Result e.World
  unfolding call_fei
  run_fei names [] w = ok w
  run_fei names (c ∷ commands) w = do
    w' ← if str_eq c.target "fei" then call_fei c.method (c.arguments names) w else ok w
    run_fei names commands w'

abbrev pub drip_period : ℕ
drip_period = 3600

abbrev pub drip_amount : ℕ
drip_amount = parse_ether 2500000

abbrev rari_merkle_redeemer_initial_balance : ℕ
rari_merkle_redeemer_initial_balance = parse_ether 5000000

abbrev merkle_redeemer_dripper_initial_balance : ℕ
merkle_redeemer_dripper_initial_balance = parse_ether 45000000

-- The dripper that `deploy` constructs.
unfoldable pub deploy_dripper : (redeemer fei now : ℕ) → Result Dripper
deploy_dripper redeemer fei now = constructor redeemer drip_period drip_amount fei now

-- `expect(call).to.be.revertedWith(message)`
unfoldable pub expect_revert {ℓ} : {A : Type ℓ} → Result A → String → Result (Unit {0})
expect_revert (ok a) message = err "Expected transaction to be reverted"
expect_revert (err reason) message = require (str_eq reason message) "Expected another reason"

-- The part of `validate` on balances and drips. The two drips run after
-- its `evm_increaseTime`, each at its own time.
unfoldable pub validate_drips :
    (e : Erc20) → (this fei redeemer timelock now later : ℕ) → Funds e → Result (Unit {0})
validate_drips e this fei redeemer timelock now later s = do
  require (e.balance_of s.world fei redeemer == rari_merkle_redeemer_initial_balance)
      "redeemer balance"
  require (e.balance_of s.world fei this == merkle_redeemer_dripper_initial_balance)
      "dripper balance"
  require (e.balance_of s.world fei this % drip_amount == 0) "not a multiple"
  expect_revert (drip e this now s)
      "MerkleRedeemerDripper: dripper target already has enough tokens."
  w ← e.transfer fei redeemer timelock (e.balance_of s.world fei redeemer) s.world
  require (e.balance_of w fei redeemer == 0) "redeemer still has tokens"
  t ← drip e this later (record { dripper = s.dripper; world = w })
  require (e.balance_of t.world fei redeemer == e.balance_of w fei redeemer + drip_amount) "drip"

-- The loop of `validate` over the tokens, which compares what the redeemer stores.
unfoldable pub validate_tokens : Redeemer → (ctokens roots rates : List ℕ) → Result (Unit {0})
validate_tokens r [] roots rates = ok tt
validate_tokens r (t ∷ ts) (m ∷ ms) (x ∷ xs) = do
  require (r.merkle_roots t == m) "merkleRoots"
  require (r.ctoken_exchange_rates t == x) "cTokenExchangeRates"
  validate_tokens r ts ms xs
validate_tokens r (t ∷ ts) _ _ = err "expected undefined"
