-- ===== src/Peg/Tests.antt =====
-- Balances with a supply of FEI, and 30 FEI minted and redeemed on them.
use tribe.Base.{
  ℕ, ◌+◌, ◌-◌, ◌≤◌, ◌≡◌, ◌≢◌, ◌&&◌, refl, sym, ap, subst, ◌∙◌, Result, ok, err, ◌>>=◌, >>=-eq-ok,
  ok-injective, leb, ◌==◌, if◌then◌else◌, update₂, arith, true, false, ==_iff,
}
use tribe.Evm.{Erc20, Moved}
use tribe.Evm.Ledger.{Balances, move, moved, move-Moved, move_succeeds}
use tribe.Peg.Fei.{Supply, Roles, State, Incentivize}
use tribe.Peg.Fei
use tribe.Peg.{mint, redeem}
use tribe.Peg.Covered.{History, IsBacked, here, mints, transfers_fei}
use tribe.Peg.Backing.{History-IsBacked, History-redeem_succeeds}
use tribe.Peg.RoundTrip.{mint-redeem}

record Purse : Type 0 where
  balances : Balances
  supply : ℕ

abbrev carry : ℕ → ℕ → ℕ → ℕ → Purse → Result Purse
carry t a b n w = do
  balances ← move t a b n w.balances
  ok (record { balances = balances; supply = w.supply })

carry_parts :
    (t a b n : ℕ) (w w' : Purse)
    → carry t a b n w ≡ ok w'
    → (move t a b n w.balances ≡ ok w'.balances) × (w'.supply ≡ w.supply)
carry_parts t a b n w w' h =
    let (balances, hb, h1) = >>=-eq-ok (move t a b n w.balances) _ h in
    (
      hb ∙ ap (λ (x : Purse). ok x.balances) (ok-injective h1),
      sym (ap (λ (x : Purse). x.supply) (ok-injective h1)),
    )

carry-Moved :
    (t a b n : ℕ) (w w' : Purse)
    → carry t a b n w ≡ ok w'
    → (n ≤ w.balances t a) × Moved w.balances w'.balances t a b n
carry-Moved t a b n w w' h =
    move-Moved t a b n w.balances w'.balances (carry_parts t a b n w w' h).0

carry_succeeds :
    (t a b n : ℕ) (w : Purse)
    → b ≢ 0
    → n ≤ w.balances t a
    → (w' : Purse) × (carry t a b n w ≡ ok w')
carry_succeeds t a b n w hb hn =
    let (balances, h) = move_succeeds t a b n w.balances hb hn in
    (
      record { balances = balances; supply = w.supply },
      ap (λ r. r >>= (λ x. ok (record { balances = x; supply = w.supply }))) h,
    )

abbrev purses : Erc20
purses = record {
  World = Purse;
  balance_of = λ w. w.balances;
  allowance = λ w t a s. w.balances t a;
  transfer = carry;
  transfer_from = λ t s a b n w. carry t a b n w;
  transfer-Moved = carry-Moved;
  transfer_from-Moved = λ t s a b n w w' h. carry-Moved t a b n w w' h;
  transfer_succeeds = carry_succeeds;
  transfer_from_succeeds = λ t s a b n w hb hn ha. carry_succeeds t a b n w hb hn;
}

abbrev minted : ℕ → ℕ → Purse → Purse
minted account n w = record {
  balances = update₂ w.balances 1 account (w.balances 1 account + n);
  supply = w.supply + n;
}

minted_lem :
    (account n : ℕ) (w : Purse) (t h : ℕ)
    → (minted account n w).balances t h ≡ w.balances t h + (if t == 1 && h == account then n else 0)
minted_lem account n w t h = ground arith

abbrev burnt : ℕ → ℕ → Purse → Purse
burnt account n w = record {
  balances = update₂ w.balances 1 account (w.balances 1 account - n);
  supply = w.supply - n;
}

abbrev burn_own : ℕ → ℕ → Purse → Result Purse
burn_own caller n w =
    if leb n (w.balances 1 caller) && leb n w.supply
    then ok (burnt caller n w)
    else err "ERC20: burn amount exceeds balance"

burn_own-Burnt :
    (caller n : ℕ) (w w' : Purse)
    → burn_own caller n w ≡ ok w'
    → (w.supply ≡ w'.supply + n)
      × ((t h : ℕ) → w.balances t h ≡ w'.balances t h + (if t == 1 && h == caller then n else 0))
burn_own-Burnt caller n w w' h = (ground arith, λ t x. ground arith)

abbrev fei : Supply purses
fei = record {
  token = 1;
  total_supply = λ w. w.supply;
  mint = λ account n w. ok (minted account n w);
  burn = burn_own;
  mint-Minted = λ account n w w' h.
      subst
        (λ (x : Purse).
          (x.supply ≡ w.supply + n)
          × ((t a : ℕ)
              → x.balances t a ≡ w.balances t a + (if t == 1 && a == account then n else 0)))
        (ok-injective h) (refl, minted_lem account n w);
  burn-Burnt = burn_own-Burnt;
  transfer-supply = λ t a b n w w' h. (carry_parts t a b n w w' h).1;
  transfer_from-supply = λ t s a b n w w' h. (carry_parts t a b n w w' h).1;
}

-- An incentive contract that refuses every transfer.
abbrev refuse : Incentivize purses
refuse = λ incentive sender recipient operator amount s. err "Incentive: refused"

-- Account 5 holds 100 DAI, the token 2; the contract is account 99.
abbrev purse : Purse
purse = record { balances = λ t h. if t == 2 && h == 5 then 100 else 0; supply = 0 }

abbrev roles : Roles
roles = record {
  is_minter = λ a. a == 99;
  is_burner = λ a. false;
  is_governor = λ a. a == 7;
  is_guardian_or_governor = λ a. a == 7;
}

abbrev state_of : Purse → State purses
state_of w = record { roles = roles; paused = false; incentive_contract = λ a. 0; world = w }

abbrev at_first : State purses
at_first = state_of purse

abbrev after_mint : State purses
after_mint =
    state_of (minted 5 30 (record { balances = moved 2 5 99 30 purse.balances; supply = 0 }))

mint_runs : mint purses fei refuse 2 99 5 5 30 30 at_first ≡ ok (30, after_mint)
unfolding mint Fei.mint move
mint_runs = refl

-- Account 5 hands 10 of its FEI to account 6.
abbrev after_transfer : State purses
after_transfer = state_of (record {
  balances = moved 1 5 6 10 after_mint.world.balances;
  supply = after_mint.world.supply;
})

transfer_runs : Fei.transfer purses fei refuse 5 6 10 after_mint ≡ ok after_transfer
unfolding Fei.transfer Fei.check_and_apply_incentives Fei.apply_incentive move
transfer_runs = refl

not_99 : ◌≢◌ {A = ℕ} 5 99
not_99 e = absurd (omega (arith, e))

apart : ◌≢◌ {A = ℕ} 2 1
apart e = absurd (omega (arith, e))

past : History purses fei refuse 2 99 at_first after_transfer
past = transfers_fei (mints here 5 5 30 30 30 not_99 mint_runs) 5 6 10 not_99 transfer_runs

only_99 : (a : ℕ) → (a == 99) ≡ true → a ≡ 99
only_99 a h = (==_iff a 99).0 h

History-IsBacked_example : IsBacked purses fei refuse 2 99 after_transfer.world
History-IsBacked_example =
    History-IsBacked purses fei refuse 2 99 apart (λ a. refl) only_99 (omega arith) past

History-redeem_succeeds_example :
    (u' : State purses) × (redeem purses fei refuse 2 99 6 6 10 10 after_transfer ≡ ok (10, u'))
History-redeem_succeeds_example =
    History-redeem_succeeds purses fei refuse 2 99 apart 6 6 10 10 (λ a. refl) only_99 (omega arith)
      past (λ e. absurd (omega (arith, e))) (λ e. absurd (omega (arith, e))) (omega arith)
      (omega arith) (omega arith) (omega arith)

mint-redeem_example :
    (s2 : State purses) × ((redeem purses fei refuse 2 99 5 5 30 30 after_mint ≡ ok (30, s2))
      × ((t h : ℕ)
          → s2.world.balances t h ≡ purse.balances t h + (if t == 1 && h == 99 then 30 else 0))
      × (s2.world.supply ≡ 0 + 30))
mint-redeem_example =
    mint-redeem purses fei refuse 2 99 5 30 30 30 at_first after_mint (λ a. refl) apart not_99
      (λ e. absurd (omega (arith, e))) (λ e. absurd (omega (arith, e))) mint_runs (omega arith)
