-- ===== src/Redeemer/Trace.antt =====
-- Transactions to the redeemer as data, and histories of them. A call that reverts leaves the
-- state as it was, so a history lists those that returned; between two of them anything may
-- happen to the tokens.
use tribe.Base.{ℕ, ◌≡◌, List, Result, ok}
use tribe.Evm.{Bytes, Erc20}
use tribe.Redeemer.Calls
use tribe.Redeemer.Calls.{Chain, Env}

pub data Call : Type 0 where
  sign : Bytes → Call
  claim : ℕ → ℕ → List ℕ → Call
  multi_claim : List ℕ → List ℕ → List (List ℕ) → Call
  redeem : ℕ → ℕ → Call
  multi_redeem : List ℕ → List ℕ → Call
  sign_and_claim : Bytes → List ℕ → List ℕ → List (List ℕ) → Call
  claim_and_redeem : List ℕ → List ℕ → List (List ℕ) → Call
  sign_and_claim_and_redeem : Bytes → List ℕ → List ℕ → List ℕ → List (List ℕ) → Call

module _ (v : Env) (e : Erc20) where
  unfoldable pub transact : ℕ → Call → Chain e → Result (Chain e)
  transact sender (sign signature) = Calls.sign v e sender signature
  transact sender (claim t n proof) = Calls.claim v e sender t n proof
  transact sender (multi_claim ts ns proofs) = Calls.multi_claim v e sender ts ns proofs
  transact sender (redeem t n) = Calls.redeem v e sender t n
  transact sender (multi_redeem ts ns) = Calls.multi_redeem v e sender ts ns
  transact sender (sign_and_claim s ts ns proofs) = Calls.sign_and_claim v e sender s ts ns proofs
  transact sender (claim_and_redeem ts ns proofs) = Calls.claim_and_redeem v e sender ts ns proofs
  transact sender (sign_and_claim_and_redeem s ts ns ms proofs) =
      Calls.sign_and_claim_and_redeem v e sender s ts ns ms proofs

  pub data History (c : Chain e) : Chain e → Type 0 where
    here : History c c
    call :
        {d d' : Chain e}
        → History c d
        → (sender : ℕ) (m : Call) → transact sender m d ≡ ok d'
        → History c d'
    others : {d : Chain e} → History c d → (w : e.World) → History c (record d { world = w })
