-- ===== src/Tips/FundingTests.antt =====
-- tip_121b run on the plain ledger with a FEI that anyone may mint, and its validation there.
use Prim.Native.Char.{code}
use tribe.Base.{
  ℕ, ◌+◌, ◌*◌, ◌≡◌, ◌&&◌, [], ◌∷◌, String, ok, ◌==◌, if◌then◌else◌, update₂, arith, false,
}
use tribe.Evm.Ledger.{ledger, Balances}
use tribe.Types.{NamedAddresses}
use tribe.Dripper.{Dripper}
use tribe.Tips.Tip121b.{Fei, drip_period, drip_amount, initial_fei_amount, dripper_fei_amount}

abbrev minted : ℕ → ℕ → Balances → Balances
minted account amount w = update₂ w 7 account (w 7 account + amount)

minted-Adds :
    (account amount : ℕ) (w w' : Balances)
    → ok (minted account amount w) ≡ ok w'
    → (t h : ℕ) → w' t h ≡ w t h + (if t == 7 && h == account then amount else 0)
minted-Adds account amount w w' h t x = ground arith

abbrev fei : Fei ledger
fei = record {
  token = 7;
  mint_tokens = λ account amount w. ok (minted account amount w);
  mint-Adds = minted-Adds;
}

abbrev size : ℕ → String → ℕ
size n String.[] = n
size n (String.◌∷◌ c s) = size (n * 256 + code c) s

abbrev names : NamedAddresses
names = ("rariMerkleRedeemer", "r") ∷ ("merkleRedeemerDripper", "d") ∷ []

abbrev empty : Balances
empty = λ t h. 0

abbrev funded : Balances
funded = minted (size 0 "d") dripper_fei_amount (minted (size 0 "r") initial_fei_amount empty)

abbrev dripper : Dripper
dripper = record {
  target = size 0 "r";
  token = 7;
  amount_to_drip = drip_amount;
  start_time = 1000;
  duration = drip_period;
  paused = false;
}
