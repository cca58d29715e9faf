-- ===== src/TribeRedeemer/Tests.antt =====
-- A base of 100, and 40 of it redeemed for two tokens.
use tribe.Base.{
  ◌≤◌, ◌≡◌, ◌&&◌, refl, [], ◌∷◌, ok, All, Distinct, ◌==◌, arith, if◌then◌else◌, uint256_mod,
  checked_sub, checked_mul, checked_div,
}
use tribe.Evm.Ledger.{ledger, move, moved, Balances}
use tribe.TribeRedeemer.{
  TribeRedeemer, Basket, constructor, amounts_out, preview_redeem, send_all, redeem,
}
use tribe.TribeRedeemer.Waiting.{here, redeems, History-preview}
use tribe.TribeRedeemer.Paid.{Paid}
use tribe.TribeRedeemer.Whole.{IsPayable, redemption_succeeds}

abbrev redeemer : TribeRedeemer
redeemer = record { redeemed_token = 1; tokens_received = 2 ∷ 3 ∷ []; redeem_base = 100 }

constructed : constructor 1 (2 ∷ 3 ∷ []) 100 ≡ redeemer
unfolding constructor
constructed = refl

abbrev full : Balances
full = λ t h.
    if t == 1 && h == 5
    then 100
    else (if t == 2 && h == 99 then 50 else (if t == 3 && h == 99 then 7 else 0))

abbrev at_first : Basket ledger
at_first = record { redeemer = redeemer; world = full }

abbrev redeemed : Basket ledger
redeemed = record {
  redeemer = record redeemer { redeem_base = 60 };
  world = moved 3 99 5 2 (moved 2 99 5 20 (moved 1 5 99 40 full));
}

apart : Distinct redeemer.tokens_received
apart = ((λ e. absurd (omega (arith, e)), tt), (tt, tt))

runs : redeem ledger 99 5 5 40 at_first ≡ ok redeemed
unfolding redeem preview_redeem amounts_out send_all move checked_sub checked_mul checked_div
    uint256_mod
runs = refl

preview_before : preview_redeem ledger 99 35 at_first ≡ ok (17 ∷ 2 ∷ [])
unfolding preview_redeem amounts_out checked_mul checked_div uint256_mod
preview_before = refl

preview_after : preview_redeem ledger 99 35 redeemed ≡ ok (17 ∷ 2 ∷ [])
unfolding preview_redeem amounts_out checked_mul checked_div uint256_mod
preview_after = refl

History-preview_example : 17 ≤ 17
History-preview_example =
    History-preview ledger 99 35 0 17 17 (17 ∷ 2 ∷ []) (17 ∷ 2 ∷ []) apart
      (redeems here 5 5 40 runs) preview_before preview_after refl refl

payable : All (IsPayable ledger 99 40 full) (2 ∷ 3 ∷ [])
unfolding uint256_mod
payable = (
  (λ e. absurd (omega (arith, e)), omega arith),
  ((λ e. absurd (omega (arith, e)), omega arith), tt),
)

redemption_succeeds_example : (s' : Basket ledger) × (redeem ledger 99 5 5 40 at_first ≡ ok s')
redemption_succeeds_example =
    redemption_succeeds ledger 99 5 5 40 at_first (λ e. absurd (omega (arith, e)))
      (λ e. absurd (omega (arith, e))) (omega arith) (omega arith) (omega arith) (omega arith) apart
      payable
