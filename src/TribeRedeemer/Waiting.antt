-- ===== src/TribeRedeemer/Waiting.antt =====
-- Redemptions of TribeRedeemer.sol one after another, and what they leave to a holder who waits.
use native.Mathlib.Nat.{
  mul-le-mul_right, mul-le-mul_left, le_of_mul-le-mul_right, div-mul-le_self, le-div_iff_mul-le,
}
use tribe.Base.{
  ℕ, zero, suc, ◌*◌, ◌/◌, ◌≤◌, ◌<◌, ◌≡◌, refl, sym, subst, ◌∙◌, List, [], ◌∷◌, map, Option, some,
  ok, >>=-eq-ok, require-then-eq-ok, All, All_at, Distinct, get_elem?, get_elem?-map, not, ◌==◌,
  checked_mul, checked_div, checked_div-eq, arith,
}
use mathlib.Core.Option.{some-injective}
use tribe.Evm.{Erc20}
use tribe.TribeRedeemer.{Basket, amounts_out, preview_redeem, redeem}
use tribe.TribeRedeemer.Share.{share, amounts_out-share, redeem_parts, NoLess, redeem-NoLess}

-- A ratio that does not fall twice does not fall.
compose :
    (b1 b2 b3 base1 base2 base3 : ℕ)
    → base3 ≤ base2
    → b1 * base2 ≤ b2 * base1
    → b2 * base3 ≤ b3 * base2
    → b1 * base3 ≤ b3 * base1
compose b1 b2 b3 base1 zero base3 less h k = omega (arith, mul-le-mul_left b1 less)
compose b1 b2 b3 base1 (suc base2) base3 less h k =
    le_of_mul-le-mul_right {k = suc base2}
      (omega (arith, mul-le-mul_right base3 h, mul-le-mul_right base1 k)) (omega arith)

-- The part of the larger ratio is at least the part of the smaller one.
share-le :
    (amount b b' base base' : ℕ)
    → 0 < base
    → 0 < base'
    → b * base' ≤ b' * base
    → (amount * b) / base ≤ (amount * b') / base'
share-le amount b b' base base' pos pos' h = (le-div_iff_mul-le pos').1 (
    le_of_mul-le-mul_right {k = base}
      (omega (
        arith,
        mul-le-mul_right base' (div-mul-le_self (amount * b) base),
        mul-le-mul_right amount h,
      ))
      pos)

listed :
    (f : ℕ → ℕ) (tokens : List ℕ) (i x : ℕ)
    → get_elem? (map f tokens) i ≡ some x
    → (t : ℕ) × (get_elem? tokens i ≡ some t)
listed f [] i x h = cc
listed f (t ∷ tokens) zero x h = (t, refl)
listed f (t ∷ tokens) (suc i) x h = listed f tokens i x h

only : {o : Option ℕ} {x y : ℕ} → o ≡ some x → o ≡ some y → x ≡ y
only h k = some-injective _ _ (sym h ∙ k)

module _ (e : Erc20) (this : ℕ) where
  -- Redemptions that returned. Between two of them the balances of the contract may grow.
  pub data History (s : Basket e) : Basket e → Type 0 where
    here : History s s
    redeems :
        {u u' : Basket e}
        → History s u
        → (sender to amount : ℕ) → redeem e this sender to amount u ≡ ok u'
        → History s u'
    others :
        {u : Basket e}
        → History s u
        → (w : e.World)
        → All (λ t. e.balance_of u.world t this ≤ e.balance_of w t this) u.redeemer.tokens_received
        → History s (record u { world = w })

  pub record Kept (s u : Basket e) : Type 0 where
    pub same : u.redeemer.tokens_received ≡ s.redeemer.tokens_received
    pub less : u.redeemer.redeem_base ≤ s.redeemer.redeem_base
    pub ratios : All (NoLess e this s u) s.redeemer.tokens_received

  at_first : (s : Basket e) (tokens : List ℕ) → All (NoLess e this s s) tokens
  at_first s [] = tt
  at_first s (t ∷ tokens) = (omega arith, at_first s tokens)

  then :
      (s u u' : Basket e) (tokens : List ℕ)
      → u'.redeemer.redeem_base ≤ u.redeemer.redeem_base
      → All (NoLess e this s u) tokens
      → All (NoLess e this u u') tokens
      → All (NoLess e this s u') tokens
  then s u u' [] less h k = tt
  then s u u' (t ∷ tokens) less h k = (
    compose (e.balance_of s.world t this) (e.balance_of u.world t this)
        (e.balance_of u'.world t this) s.redeemer.redeem_base u.redeemer.redeem_base
        u'.redeemer.redeem_base less h.0 k.0,
    then s u u' tokens less h.1 k.1,
  )

  grown :
      (u : Basket e) (w : e.World) (tokens : List ℕ)
      → All (λ t. e.balance_of u.world t this ≤ e.balance_of w t this) tokens
      → All (NoLess e this u (record u { world = w })) tokens
  grown u w [] h = tt
  grown u w (t ∷ tokens) h = (mul-le-mul_right u.redeemer.redeem_base h.0, grown u w tokens h.1)

  -- Along every history of a contract that lists no token twice, no received token loses against the
  -- base, and the base does not rise.
  pub History-Kept : {s u : Basket e} → History s u → Distinct s.redeemer.tokens_received → Kept s u
  History-Kept {s = s} here distinct = record {
    same = refl;
    less = omega arith;
    ratios = at_first s s.redeemer.tokens_received;
  }
  History-Kept {s = s} (redeems {u} {u'} past sender to amount h) distinct =
      let i = History-Kept past distinct in
      let k = redeem_parts e this sender to amount u u' h in
      let once =
        redeem-NoLess e this sender to amount u u' (subst Distinct (sym i.same) distinct) h in
      record {
        same = k.same ∙ i.same;
        less = omega (arith, i.less, k.split);
        ratios =
            then s u u' s.redeemer.tokens_received (omega (arith, k.split)) i.ratios
              (subst (All (NoLess e this u u')) i.same once);
      }
  History-Kept {s = s} (others {u} past w grows) distinct =
      let i = History-Kept past distinct in
      record {
        same = i.same;
        less = i.less;
        ratios =
            then s u (record u { world = w }) s.redeemer.tokens_received (omega arith) i.ratios
              (grown u w s.redeemer.tokens_received (subst (All _) i.same grows));
      }

  amounts_out-pos :
      (amount base : ℕ) (tokens : List ℕ) (w : e.World) (outs : List ℕ) (i x : ℕ)
      → amounts_out e this amount base tokens w ≡ ok outs
      → get_elem? tokens i ≡ some x
      → 0 < base
  unfolding amounts_out
  amounts_out-pos amount base [] w outs i x h at = cc
  amounts_out-pos amount base (t ∷ tokens) w outs i x h at =
      let balance = e.balance_of w t this in
      let (_, h1) = require-then-eq-ok (not (balance == 0)) _ _ h in
      let (product, hp, h2) = >>=-eq-ok (checked_mul amount balance) _ h1 in
      let (out, ho, h3) = >>=-eq-ok (checked_div product base) _ h2 in
      (checked_div-eq product base out ho).1

  -- Who waits gets no less: what `previewRedeem` gives for an amount after a history, for any of the
  -- received tokens, is at least what it gave before, when the contract lists no token twice.
  pub History-preview :
      {s u : Basket e} (amount i x y : ℕ) (outs outs' : List ℕ)
      → Distinct s.redeemer.tokens_received
      → History s u
      → preview_redeem e this amount s ≡ ok outs
      → preview_redeem e this amount u ≡ ok outs'
      → get_elem? outs i ≡ some x
      → get_elem? outs' i ≡ some y
      → x ≤ y
  unfolding preview_redeem
  History-preview {s} {u} amount i x y outs outs' distinct past hs hu hx hy =
      let k = History-Kept past distinct in
      let tokens = s.redeemer.tokens_received in
      let base = s.redeemer.redeem_base in
      let base' = u.redeemer.redeem_base in
      let before = amounts_out-share e this amount base tokens s.world outs hs in
      let hu' = subst (λ ts. amounts_out e this amount base' ts u.world ≡ ok outs') k.same hu in
      let after = amounts_out-share e this amount base' tokens u.world outs' hu' in
      let (t, at) = listed (share e this amount base s.world) tokens i x (rw before at hx) in
      let is_x =
        only (get_elem?-map (share e this amount base s.world) tokens i t at) (rw before at hx) in
      let is_y =
        only (get_elem?-map (share e this amount base' u.world) tokens i t at) (rw after at hy) in
      omega (
        arith,
        is_x,
        is_y,
        share-le amount (e.balance_of s.world t this) (e.balance_of u.world t this) base base'
            (amounts_out-pos amount base tokens s.world outs i t hs at)
            (amounts_out-pos amount base' tokens u.world outs' i t hu' at)
            (All_at (NoLess e this s u) tokens i t k.ratios at),
      )
