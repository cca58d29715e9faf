-- ===== src/Redeemer/Tests.antt =====
-- A deployment with 27 tokens, a claim and a redemption on it, and the theorems at these inputs.
use tribe.Base.{
  ℕ, zero, suc, ◌+◌, ◌*◌, ◌≢◌, ◌≤◌, ◌^◌, ◌≡◌, refl, true, List, [], ◌∷◌, Result, ok, err, Distinct,
  arith, uint256_mod, checked_add, checked_mul, update, update₂,
}
use tribe.Evm.{Bytes, encode_packed}
use tribe.Evm.Ledger.{ledger, move, moved, Balances}
use tribe.Redeemer.{
  Redeemer, constructor, configure_rates, configure_roots, configure_exchange_rates,
  configure_merkle_roots, configure_base_token, has_signed, claim_one, verify, leaf_hash,
  preview_redeem,
}
use tribe.Redeemer.Calls.{
  Env, Chain, sign, claim, redeem, sign_one, redeem_one, redeem_effect, redeem_interaction,
}
use tribe.Redeemer.Trace.{Call, History, here, call, transact}
use tribe.Redeemer.Claims.{IsSound, History-IsSound, History-Claimed}
use tribe.Redeemer.Payment.{Pays, redeem-eq-ok, redeem_succeeds}
use tribe.Redeemer.Deployment.{deployed, constructor-at, constructor-IsSound}

abbrev total : Bytes → ℕ
total [] = 0
total (b ∷ bs) = b + total bs

-- A hash and a recovery that run: the sum of the bytes, and the first byte of a signature.
abbrev first_byte : Bytes → Result ℕ
first_byte [] = err "ECDSA: invalid signature length"
first_byte (b ∷ bs) = ok b

abbrev env : Env
env = record { keccak256 = total; recover = λ h s. first_byte s; message_hash = 1; this = 99 }

abbrev count_up : ℕ → ℕ → List ℕ
count_up zero n = []
count_up (suc k) n = n ∷ count_up k (n + 1)

abbrev repeated : ℕ → ℕ → List ℕ
repeated zero x = []
repeated (suc k) x = x ∷ repeated k x

abbrev tokens : List ℕ
tokens = count_up 27 1

abbrev rates : List ℕ
rates = repeated 27 (2 * 10 ^ 18)

-- User 5 has a leaf of 40 in every tree, whose hash is 45, and no other leaf stands beside it.
abbrev roots : List ℕ
roots = repeated 27 45

abbrev fresh : Redeemer
fresh = deployed 100 tokens rates roots

constructed : constructor 100 tokens rates roots ≡ ok fresh
unfolding constructor configure_exchange_rates configure_rates configure_merkle_roots
    configure_roots configure_base_token
constructed = refl

tokens-Distinct : Distinct tokens
tokens-Distinct = omega arith

constructor-at_example : (fresh.ctoken_exchange_rates 3 ≡ 2 * 10 ^ 18) × (fresh.merkle_roots 3 ≡ 45)
constructor-at_example =
    constructor-at 100 tokens rates roots fresh 2 3 (2 * 10 ^ 18) 45 constructed tokens-Distinct
      refl refl refl

-- User 5 holds 60 of token 3, and the contract, 99, holds 1000 of the base token, 100.
abbrev balances : Balances
balances = update₂ (update₂ (λ t u. 0) 3 5 60) 100 99 1000

abbrev start : Chain ledger
start = record { redeemer = fresh; world = balances }

abbrev signed : Chain ledger
signed = record {
  redeemer = record fresh { user_signatures = update fresh.user_signatures 5 (5 ∷ []) };
  world = balances;
}

abbrev claimed : Chain ledger
claimed = record {
  redeemer = record signed.redeemer { claims = update₂ fresh.claims 5 3 40 };
  world = balances;
}

signs : transact env ledger 5 (Call.sign (5 ∷ [])) start ≡ ok signed
unfolding transact sign sign_one has_signed
signs = refl

claims : transact env ledger 5 (Call.claim 3 40 []) signed ≡ ok claimed
unfolding transact claim claim_one verify leaf_hash encode_packed has_signed
claims = refl

past : History env ledger start claimed
past = call (call here 5 (Call.sign (5 ∷ [])) signs) 5 (Call.claim 3 40 []) claims

fresh-IsSound : IsSound env fresh.merkle_roots fresh.ctoken_exchange_rates fresh
fresh-IsSound = constructor-IsSound env 100 tokens rates roots fresh constructed

History-IsSound_example :
    IsSound env fresh.merkle_roots fresh.ctoken_exchange_rates claimed.redeemer
History-IsSound_example =
    History-IsSound env ledger fresh.merkle_roots fresh.ctoken_exchange_rates past fresh-IsSound

has_signed_5 : has_signed total 5 claimed.redeemer ≡ true
unfolding has_signed
has_signed_5 = refl

taken : move 3 5 99 30 balances ≡ ok (moved 3 5 99 30 balances)
unfolding move
taken = refl

redeem_succeeds_example : (d : Chain ledger) × (redeem env ledger 5 3 30 claimed ≡ ok d)
unfolding uint256_mod
redeem_succeeds_example =
    redeem_succeeds env ledger 5 3 30 claimed (moved 3 5 99 30 balances) has_signed_5 (omega arith)
      (omega arith) (omega arith) (omega arith) (omega arith) (omega arith) taken (omega arith)

-- 30 tokens at a rate of 2 leave the user with 30 and pay 60.
abbrev redeemed : Chain ledger
redeemed = record {
  redeemer = record claimed.redeemer { redemptions = update₂ fresh.redemptions 5 3 30 };
  world = update₂ (update₂ (update₂ (update₂ balances 3 5 30) 3 99 30) 100 99 940) 100 5 60;
}

redeems : redeem env ledger 5 3 30 claimed ≡ ok redeemed
unfolding redeem redeem_one redeem_effect redeem_interaction preview_redeem checked_add checked_mul
    uint256_mod move has_signed
redeems = refl

redeems_by_call : transact env ledger 5 (Call.redeem 3 30) claimed ≡ ok redeemed
unfolding transact
redeems_by_call = redeems

History-Claimed_example :
    (redeemed.redeemer.claims 5 3 ≡ claimed.redeemer.claims 5 3)
    × (claimed.redeemer.redemptions 5 3 ≤ redeemed.redeemer.redemptions 5 3)
History-Claimed_example =
    History-Claimed env ledger 5 3 (call here 5 (Call.redeem 3 30) redeems_by_call) (omega arith)

redeem-eq-ok_example :
    (has_signed total 5 claimed.redeemer ≡ true)
    × (◌≢◌ {A = ℕ} 30 0)
    × (claimed.redeemer.redemptions 5 3 + 30 ≤ claimed.redeemer.claims 5 3)
    × (redeemed.redeemer ≡ record claimed.redeemer {
      redemptions =
          update₂ claimed.redeemer.redemptions 5 3 (claimed.redeemer.redemptions 5 3 + 30);
    })
    × Pays env ledger 5 3 30 claimed.redeemer claimed.world redeemed.world
redeem-eq-ok_example = redeem-eq-ok env ledger 5 3 30 claimed redeemed redeems
