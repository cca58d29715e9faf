-- ===== src/Redeemer/Storage.antt =====
-- A property of the storage that signing, one claim and one redemption keep is kept by every
-- transaction and along every history.
use tribe.Base.{
  ℕ, ◌≡◌, refl, List, [], ◌∷◌, Result, ok, err, ◌>>=◌, not, length, ◌==◌, Ensures, Ensures-ok,
  Ensures-bind, Ensures-require,
}
use tribe.Evm.{Bytes, Erc20}
use tribe.Redeemer.{Redeemer, claim_one, claim_each, claim_many, has_signed}
use tribe.Redeemer.Calls.{
  Env, Chain, on_storage, sign_one, redeem_effect, redeem_effects, redeem_interactions,
  redeem_interaction, redeem_one, redeem_many,
}
use tribe.Redeemer.Calls
use tribe.Redeemer.Trace.{Call, transact, History, here, call, others}

-- The three effects that the contract has on its storage.
pub record Kept (v : Env) (e : Erc20) (P : Redeemer → Type 0) : Type 0 where
  pub by_sign :
      (sender : ℕ) (signature : Bytes) (r r' : Redeemer)
      → sign_one v e sender signature r ≡ ok r'
      → P r
      → P r'
  pub by_claim :
      (sender t n : ℕ) (proof : List ℕ) (r r' : Redeemer)
      → claim_one v.keccak256 sender t n proof r ≡ ok r'
      → P r
      → P r'
  pub by_redeem :
      (sender t n : ℕ) (r r' : Redeemer) → redeem_effect v e sender t n r ≡ ok r' → P r → P r'

module _ (v : Env) (e : Erc20) {P : Redeemer → Type 0} (k : Kept v e P) where
  claim_each-Ensures :
      (sender : ℕ) (ts ns : List ℕ) (ps : List (List ℕ)) (r : Redeemer)
      → P r
      → Ensures P (claim_each v.keccak256 sender ts ns ps r)
  unfolding claim_each
  claim_each-Ensures sender [] ns ps r p = Ensures-ok p
  claim_each-Ensures sender (t ∷ ts) [] ps r p = Ensures-ok p
  claim_each-Ensures sender (t ∷ ts) (n ∷ ns) [] r p = Ensures-ok p
  claim_each-Ensures sender (t ∷ ts) (n ∷ ns) (q ∷ qs) r p =
      Ensures-bind _ _ λ m h. claim_each-Ensures sender ts ns qs m (k.by_claim sender t n q r m h p)

  claim_many-Ensures :
      (sender : ℕ) (ts ns : List ℕ) (ps : List (List ℕ)) (r : Redeemer)
      → P r
      → Ensures P (claim_many v.keccak256 sender ts ns ps r)
  unfolding claim_many
  claim_many-Ensures sender ts ns ps r p =
      Ensures-require (length ts == length ns) _ _ λ _.
        Ensures-require (length ts == length ps) _ _ λ _. claim_each-Ensures sender ts ns ps r p

  redeem_effects-Ensures :
      (sender : ℕ) (ts ns : List ℕ) (r : Redeemer)
      → P r
      → Ensures P (redeem_effects v e sender ts ns r)
  unfolding redeem_effects
  redeem_effects-Ensures sender [] ns r p = Ensures-ok p
  redeem_effects-Ensures sender (t ∷ ts) [] r p = Ensures-ok p
  redeem_effects-Ensures sender (t ∷ ts) (n ∷ ns) r p = Ensures-require _ _ _ λ _.
      Ensures-bind _ _ λ m h. redeem_effects-Ensures sender ts ns m (k.by_redeem sender t n r m h p)

  abbrev Keeps : Chain e → Result (Chain e) → Type 0
  Keeps c m = P c.redeemer → Ensures (λ (d : Chain e). P d.redeemer) m

  world_step-Ensures :
      (r : Redeemer) (m : Result e.World)
      → P r
      → Ensures (λ (d : Chain e). P d.redeemer) (m >>= λ w. ok (record { redeemer = r; world = w }))
  world_step-Ensures r (ok w) p = Ensures-ok p
  world_step-Ensures r (err x) p = record { at = λ d h. cc }

  storage_step-Ensures :
      (m : Result Redeemer) (g : Redeemer → Result e.World)
      → Ensures P m
      → Ensures
          (λ (d : Chain e). P d.redeemer)
          (m >>= λ r. g r >>= λ w. ok (record { redeemer = r; world = w }))
  storage_step-Ensures (ok r) g h = world_step-Ensures r (g r) (h.at r refl)
  storage_step-Ensures (err x) g h = record { at = λ d y. cc }

  redeem_one-Ensures : (sender t n : ℕ) (c : Chain e) → Keeps c (redeem_one v e sender t n c)
  unfolding redeem_one
  redeem_one-Ensures sender t n c p =
      storage_step-Ensures (redeem_effect v e sender t n c.redeemer)
        (λ r. redeem_interaction v e sender t n r c.world)
        (record { at = λ r h. k.by_redeem sender t n c.redeemer r h p })

  redeem_many-Ensures :
      (sender : ℕ) (ts ns : List ℕ) (c : Chain e) → Keeps c (redeem_many v e sender ts ns c)
  unfolding redeem_many
  redeem_many-Ensures sender ts ns c p = Ensures-require (length ts == length ns) _ _ λ _.
      storage_step-Ensures (redeem_effects v e sender ts ns c.redeemer)
        (λ r. redeem_interactions v e sender ts ns r c.world)
        (redeem_effects-Ensures sender ts ns c.redeemer p)

  on_storage-Ensures :
      (f : Redeemer → Result Redeemer) (c : Chain e)
      → Ensures P (f c.redeemer)
      → Ensures (λ (d : Chain e). P d.redeemer) (on_storage v e f c)
  on_storage-Ensures f c h = storage_step-Ensures (f c.redeemer) (λ r. ok c.world) h

  signing :
      (sender : ℕ) (s : Bytes) (c : Chain e) → Keeps c (on_storage v e (sign_one v e sender s) c)
  signing sender s c p =
      on_storage-Ensures (sign_one v e sender s) c
        (record { at = λ r' h. k.by_sign sender s c.redeemer r' h p })

  claiming :
      (sender : ℕ) (ts ns : List ℕ) (ps : List (List ℕ)) (c : Chain e)
      → Keeps c (on_storage v e (claim_many v.keccak256 sender ts ns ps) c)
  claiming sender ts ns ps c p =
      on_storage-Ensures (claim_many v.keccak256 sender ts ns ps) c
        (claim_many-Ensures sender ts ns ps c.redeemer p)

  and_then :
      (m : Result (Chain e)) (f : Chain e → Result (Chain e))
      → Ensures (λ (d : Chain e). P d.redeemer) m
      → ((d : Chain e) → Keeps d (f d))
      → Ensures (λ (d : Chain e). P d.redeemer) (m >>= f)
  and_then (ok c) f h next = next c (h.at c refl)
  and_then (err x) f h next = record { at = λ d y. cc }

  pub transact-Ensures : (sender : ℕ) (m : Call) (c : Chain e) → Keeps c (transact v e sender m c)
  unfolding transact Calls.sign Calls.claim Calls.multi_claim Calls.redeem Calls.multi_redeem
      Calls.sign_and_claim Calls.claim_and_redeem Calls.sign_and_claim_and_redeem
  transact-Ensures sender (Call.sign s) c p =
      Ensures-require (not (has_signed v.keccak256 sender c.redeemer)) _ _ λ _. signing sender s c p
  transact-Ensures sender (Call.claim t n q) c p =
      Ensures-require (has_signed v.keccak256 sender c.redeemer) _ _ λ _.
        on_storage-Ensures (claim_one v.keccak256 sender t n q) c
          (record { at = λ r' h. k.by_claim sender t n q c.redeemer r' h p })
  transact-Ensures sender (Call.multi_claim ts ns ps) c p =
      Ensures-require (has_signed v.keccak256 sender c.redeemer) _ _
        λ _. claiming sender ts ns ps c p
  transact-Ensures sender (Call.redeem t n) c p =
      Ensures-require (has_signed v.keccak256 sender c.redeemer) _ _
        λ _. redeem_one-Ensures sender t n c p
  transact-Ensures sender (Call.multi_redeem ts ns) c p =
      Ensures-require (has_signed v.keccak256 sender c.redeemer) _ _
        λ _. redeem_many-Ensures sender ts ns c p
  transact-Ensures sender (Call.sign_and_claim s ts ns ps) c p =
      and_then (on_storage v e (sign_one v e sender s) c)
        (on_storage v e (claim_many v.keccak256 sender ts ns ps)) (signing sender s c p)
        (claiming sender ts ns ps)
  transact-Ensures sender (Call.claim_and_redeem ts ns ps) c p =
      Ensures-require (has_signed v.keccak256 sender c.redeemer) _ _ λ _.
        and_then (on_storage v e (claim_many v.keccak256 sender ts ns ps) c)
          (redeem_many v e sender ts ns) (claiming sender ts ns ps c p)
          (redeem_many-Ensures sender ts ns)
  transact-Ensures sender (Call.sign_and_claim_and_redeem s ts ns ms ps) c p =
      Ensures-require (not (has_signed v.keccak256 sender c.redeemer)) _ _ λ _.
        and_then (on_storage v e (sign_one v e sender s) c)
          (λ d.
            on_storage v e (claim_many v.keccak256 sender ts ns ps) d
            >>= redeem_many v e sender ts ms)
          (signing sender s c p)
          (λ d p'.
            and_then (on_storage v e (claim_many v.keccak256 sender ts ns ps) d)
              (redeem_many v e sender ts ms) (claiming sender ts ns ps d p')
              (redeem_many-Ensures sender ts ms))

  -- What signing, one claim and one redemption keep, every history keeps.
  pub History-keeps : {c d : Chain e} → History v e c d → P c.redeemer → P d.redeemer
  History-keeps here p = p
  History-keeps (call {d = m} {d' = m'} past sender x h) p =
      (transact-Ensures sender x m (History-keeps past p)).at m' h
  History-keeps (others past w) p = History-keeps past p
