-- ===== src/Evm/Ledger.antt =====
-- A plain ledger of tokens: it shows that what `Erc20` asks of a token can be met, and the examples
-- run on it.
use tribe.Base.{
  ℕ, ◌+◌, ◌-◌, ◌≤◌, ◌≡◌, ◌≢◌, ◌||◌, not, Result, ok, err, leb, ◌==◌, if◌then◌else◌, update₂, arith,
}
use tribe.Evm.{Erc20, Moved}

abbrev pub Balances : Type 0
Balances = ℕ → ℕ → ℕ

abbrev pub moved : ℕ → ℕ → ℕ → ℕ → Balances → Balances
moved t a b n w = let w' = update₂ w t a (w t a - n) in update₂ w' t b (w' t b + n)

unfoldable pub move : ℕ → ℕ → ℕ → ℕ → Balances → Result Balances
move t a b n w =
    if b == 0 || not (leb n (w t a)) then err "ERC20: transfer refused" else ok (moved t a b n w)

pub move-Moved :
    (t a b n : ℕ) (w w' : Balances) → move t a b n w ≡ ok w' → (n ≤ w t a) × Moved w w' t a b n
unfolding move
move-Moved t a b n w w' h = (ground arith, λ x y. ground arith)

pub move_succeeds :
    (t a b n : ℕ) (w : Balances) → b ≢ 0 → n ≤ w t a → (w' : Balances) × (move t a b n w ≡ ok w')
unfolding move
move_succeeds t a b n w hb hn = (moved t a b n w, ground arith)

abbrev pub ledger : Erc20
ledger = record {
  World = Balances;
  balance_of = λ w. w;
  allowance = λ w t a s. w t a;
  transfer = move;
  transfer_from = λ t s a b n w. move t a b n w;
  transfer-Moved = move-Moved;
  transfer_from-Moved = λ t s a b n w w' h. move-Moved t a b n w w' h;
  transfer_succeeds = move_succeeds;
  transfer_from_succeeds = λ t s a b n w hb hn ha. move_succeeds t a b n w hb hn;
}
