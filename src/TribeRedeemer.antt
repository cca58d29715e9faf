-- ===== src/TribeRedeemer.antt =====
-- contracts/shutdown/redeem/TribeRedeemer.sol: a token taken out of circulation for a share of every
-- balance of the contract. The tokens are the interface Erc20. nonReentrant is the absence of nested
-- calls.
pub mod Share
pub mod Waiting
pub mod Whole
pub mod Paid
mod Tests
use tribe.Base.{
  ℕ, List, [], ◌∷◌, Result, ok, err, ◌>>=◌, ◌>>◌, require, not, ◌==◌, checked_sub, checked_mul,
  checked_div,
}
use tribe.Evm.{Erc20}

pub record TribeRedeemer : Type 0 where
  pub redeemed_token : ℕ
  pub tokens_received : List ℕ
  pub redeem_base : ℕ

unfoldable pub constructor : (redeemed_token : ℕ) → List ℕ → (redeem_base : ℕ) → TribeRedeemer
constructor redeemed_token tokens_received redeem_base = record {
  redeemed_token = redeemed_token;
  tokens_received = tokens_received;
  redeem_base = redeem_base;
}

-- The contract among the tokens.
pub record Basket (e : Erc20) : Type 0 where
  pub redeemer : TribeRedeemer
  pub world : e.World

module _ (e : Erc20) (this : ℕ) where
  -- The loop of `previewRedeem`.
  unfoldable pub amounts_out : (amount base : ℕ) → List ℕ → e.World → Result (List ℕ)
  amounts_out amount base [] w = ok []
  amounts_out amount base (t ∷ tokens) w = do
    let balance = e.balance_of w t this
    require (not (balance == 0)) "ZERO_BALANCE"
    product ← checked_mul amount balance
    out ← checked_div product base
    rest ← amounts_out amount base tokens w
    ok (out ∷ rest)

  unfoldable pub preview_redeem : ℕ → Basket e → Result (List ℕ)
  preview_redeem amount s =
      amounts_out amount s.redeemer.redeem_base s.redeemer.tokens_received s.world

  -- The loop of `redeem`.
  unfoldable pub send_all : (to : ℕ) → (tokens amounts : List ℕ) → e.World → Result e.World
  send_all to (t ∷ tokens) (out ∷ amounts) w = do
    w' ← e.transfer t this to out w
    send_all to tokens amounts w'
  send_all to (t ∷ tokens) [] w = ok w
  send_all to [] amounts w = ok w

  unfoldable pub redeem : (sender to amount : ℕ) → Basket e → Result (Basket e)
  redeem sender to amount s = do
    w ← e.transfer_from s.redeemer.redeemed_token this sender this amount s.world
    amounts ← preview_redeem amount (record s { world = w })
    base ← checked_sub s.redeemer.redeem_base amount
    w' ← send_all to s.redeemer.tokens_received amounts w
    ok (record { redeemer = record s.redeemer { redeem_base = base }; world = w' })
