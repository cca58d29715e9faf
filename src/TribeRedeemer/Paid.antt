-- ===== src/TribeRedeemer/Paid.antt =====
-- What a redemption of TribeRedeemer.sol moves.
use tribe.Base.{ℕ, ◌+◌, ◌≡◌}
use tribe.Evm.{Erc20}

module _ (e : Erc20) (this to : ℕ) where
  -- `out` of a token went from the contract to the receiver.
  abbrev pub Paid : e.World → e.World → (t out : ℕ) → Type 0
  Paid w w' t out =
      (e.balance_of w' t this + out ≡ e.balance_of w t this)
      × (e.balance_of w' t to ≡ e.balance_of w t to + out)
