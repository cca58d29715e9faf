-- ===== src/Evm.antt =====
-- What the contracts take from the chain: byte strings and their packed encoding, and the ERC-20
-- tokens that they call. `keccak256` is a parameter wherever it is used.
pub mod Ledger
use tribe.Base.{
  ℕ, zero, suc, ◌+◌, ◌/◌, ◌%◌, ◌≤◌, ◌≡◌, ◌≢◌, ◌&&◌, List, [], ◌∷◌, ◌++◌, Result, ok, ◌==◌,
  if◌then◌else◌,
}

abbrev pub Bytes : Type 0
Bytes = List ℕ

-- The last `width` bytes of a number, the highest first.
unfoldable pub big_endian : ℕ → ℕ → Bytes
big_endian zero n = []
big_endian (suc width) n = big_endian width (n / 256) ++ (n % 256) ∷ []

-- `abi.encodePacked(address, uint256)`
unfoldable pub encode_packed : ℕ → ℕ → Bytes
unfolding big_endian
encode_packed account amount = big_endian 20 account ++ big_endian 32 amount

-- Every balance before and after `amount` of `token` went from `source` to `target`. The equation
-- is by sums, and holds for a transfer to oneself too.
abbrev pub Moved : (ℕ → ℕ → ℕ) → (ℕ → ℕ → ℕ) → (token source target amount : ℕ) → Type 0
Moved before after token source target amount =
    (t h : ℕ)
    → after t h + (if t == token && h == source then amount else 0)
      ≡ before t h + (if t == token && h == target then amount else 0)

-- The tokens behind `IERC20`, which the repository takes from OpenZeppelin and Compound. A call
-- that reverts is an error; one that returns moves the whole amount and nothing else.
pub record Erc20 : Type 1 where
  pub World : Type 0
  pub balance_of : World → ℕ → ℕ → ℕ
  pub allowance : World → ℕ → ℕ → ℕ → ℕ
  -- token, caller, recipient, amount
  pub transfer : ℕ → ℕ → ℕ → ℕ → World → Result World
  -- token, caller, owner, recipient, amount
  pub transfer_from : ℕ → ℕ → ℕ → ℕ → ℕ → World → Result World
  pub transfer-Moved :
      (token source target amount : ℕ) (w w' : World)
      → transfer token source target amount w ≡ ok w'
      → (amount ≤ balance_of w token source)
        × Moved (balance_of w) (balance_of w') token source target amount
  pub transfer_from-Moved :
      (token caller source target amount : ℕ) (w w' : World)
      → transfer_from token caller source target amount w ≡ ok w'
      → (amount ≤ balance_of w token source)
        × Moved (balance_of w) (balance_of w') token source target amount
  pub transfer_succeeds :
      (token source target amount : ℕ) (w : World)
      → target ≢ 0
      → amount ≤ balance_of w token source
      → (w' : World) × (transfer token source target amount w ≡ ok w')
  pub transfer_from_succeeds :
      (token caller source target amount : ℕ) (w : World)
      → target ≢ 0
      → amount ≤ balance_of w token source
      → amount ≤ allowance w token source caller
      → (w' : World) × (transfer_from token caller source target amount w ≡ ok w')
