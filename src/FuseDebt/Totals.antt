-- ===== src/FuseDebt/Totals.antt =====
-- What getFuseBadDebt prints.
use tribe.Base.{
  ℕ, ◌+◌, ◌/◌, ◌^◌, ◌≡◌, ◌⊎◌, inl, inr, refl, ap, ◌∙◌, true, Bool-cases, Option, none, some, String,
  List, [], ◌∷◌, Result, ok, >>=-ok, ◌==◌, ==_iff, str_eq, str_eq_iff, All, arith, if◌then◌else◌,
}
use tribe.Js.{Object, get, put, includes, to_lower_case, AllEntries-get}
use tribe.FuseDebt.{underlyings, ctokens, no_debt, add_debt, in_units, add_debts, get_fuse_bad_debt}
use tribe.FuseDebt.Holds.{
  names, Holds, named, put-Holds, add_debt-some, in_units-Holds, no_debt-Holds,
}

-- An amount, if it is of the name.
abbrev pub part : Option String → String → ℕ → ℕ
part none n amount = 0
part (some name) n amount = if str_eq name n then amount else 0

part-zero : (o : Option String) (n : String) (amount : ℕ) → amount ≡ 0 → part o n amount ≡ 0
part-zero none n amount h = refl
part-zero (some name) n amount h = ground (arith, h)

part-new :
    (o : Option String) (name n : String) (amount : ℕ) (f : String → ℕ)
    → o ≡ some name
    → f n + part o n amount ≡ (if str_eq name n then f name + amount else f n)
part-new o name n amount f e = elim (Bool-cases (str_eq name n)) [
  | inl same ↦ rw (e, same, (str_eq_iff name n).0 same) refl
  | inr other ↦ rw (e, other) (omega arith)
]

module _ (u : String → String) (b : String → ℕ) where
  -- What the tokens of an underlying with the name are owed.
  abbrev pub owed : String → Object String → ℕ
  owed n [] = 0
  owed n ((ctoken, label) ∷ tokens) =
      part (get underlyings (to_lower_case (u ctoken))) n (b ctoken) + owed n tokens

  -- No debt, or an underlying with a name.
  abbrev pub IsKnown : String → Type 0
  IsKnown ctoken =
      (b ctoken ≡ 0) ⊎ ((name : String) × (get underlyings (to_lower_case (u ctoken)) ≡ some name))

  one-Holds :
      (ctoken : String) (f : String → ℕ) (debt : Object ℕ)
      → IsKnown ctoken
      → Holds f debt
      → (debt' : Object ℕ) × (((if b ctoken == 0
              then ok debt
              else add_debt (get underlyings (to_lower_case (u ctoken))) (b ctoken) debt)
            ≡ ok debt')
          × Holds (λ n. f n + part (get underlyings (to_lower_case (u ctoken))) n (b ctoken)) debt')
  one-Holds ctoken f debt known holds =
      let o = get underlyings (to_lower_case (u ctoken)) in
      elim (Bool-cases (b ctoken == 0)) [
        | inl nothing ↦ (
          debt,
          (
            rw nothing refl,
            λ n h.
                holds n h
                ∙ ap (λ x. some x)
                    (omega (arith, part-zero o n (b ctoken) ((==_iff (b ctoken) 0).0 nothing))),
          ),
        )
        | inr some_debt ↦ elim known [
          | inl nothing ↦ absurd (ground (arith, nothing, some_debt))
          | inr named_so ↦
              let (name, e) = named_so in
              let among =
                AllEntries-get (λ k v. includes names v ≡ true) underlyings
                  (to_lower_case (u ctoken)) name named e in
              (
                put debt name (f name + b ctoken),
                (
                  rw (some_debt, e)
                      (add_debt-some name (b ctoken) (f name) debt (holds name among)),
                  put-Holds name (f name + b ctoken) f (λ n. f n + part o n (b ctoken)) debt
                      (λ n. part-new o name n (b ctoken) f e) holds,
                ),
              )
        ]
      ]

  add_debts-Holds :
      (underlying : String → Result String) (borrow_balance : String → Result ℕ)
      → ((t : String) → underlying t ≡ ok (u t))
      → ((t : String) → borrow_balance t ≡ ok (b t))
      → (tokens : Object String) (f : String → ℕ) (debt : Object ℕ) → All (λ t. IsKnown t.0) tokens
      → Holds f debt
      → (debt' : Object ℕ) × ((add_debts underlying borrow_balance tokens debt ≡ ok debt')
          × Holds (λ n. f n + owed n tokens) debt')
  unfolding add_debts
  add_debts-Holds underlying borrow_balance hu hb [] f debt known holds =
      (debt, (refl, λ n h. holds n h ∙ ap (λ x. some x) (omega arith)))
  add_debts-Holds underlying borrow_balance hu hb ((ctoken, label) ∷ tokens) f debt known holds =
      let (debt1, (h1, holds1)) = one-Holds ctoken f debt known.0 holds in
      let (debt2, (h2, holds2)) =
        add_debts-Holds underlying borrow_balance hu hb tokens _ debt1 known.1 holds1 in
      (
        debt2,
        (
          >>=-ok (underlying ctoken) _ (u ctoken) (hu ctoken)
              (>>=-ok (borrow_balance ctoken) _ (b ctoken) (hb ctoken) (>>=-ok _ _ debt1 h1 h2)),
          λ n h. holds2 n h ∙ ap (λ x. some x) (omega arith),
        ),
      )

-- The names of `debt`, with what their amounts are divided by: WETH and wstETH are not.
abbrev pub units : List (String × ℕ)
units =
    ("ETH", 10 ^ 18)
    ∷ ("FEI", 10 ^ 18)
    ∷ ("FRAX", 10 ^ 18)
    ∷ ("RAI", 10 ^ 18)
    ∷ ("DAI", 10 ^ 18)
    ∷ ("USDC", 10 ^ 6)
    ∷ ("LUSD", 10 ^ 18)
    ∷ ("USTw", 10 ^ 6)
    ∷ ("USDT", 10 ^ 6)
    ∷ ("WETH", 1)
    ∷ ("wstETH", 1)
    ∷ []

-- Where the two calls return for every token, and every token that is owed anything has an
-- underlying with a name, the script gives for each name what all tokens of that name are owed,
-- divided by the name's unit: 10 ^ 18 or 10 ^ 6, and 1 for WETH and wstETH.
pub get_fuse_bad_debt-owed :
    (underlying : String → Result String) (borrow_balance : String → Result ℕ) (u : String → String)
    (b : String → ℕ)
    → ((t : String) → underlying t ≡ ok (u t))
    → ((t : String) → borrow_balance t ≡ ok (b t))
    → All (λ t. IsKnown u b t.0) ctokens
    → (debt : Object ℕ) × ((get_fuse_bad_debt underlying borrow_balance ≡ ok debt)
        × All (λ x. get debt x.0 ≡ some (owed u b x.0 ctokens / x.1)) units)
unfolding get_fuse_bad_debt
get_fuse_bad_debt-owed underlying borrow_balance u b hu hb known =
    let (debt, (h, holds)) =
      add_debts-Holds u b underlying borrow_balance hu hb ctokens (λ n. 0) no_debt known
        no_debt-Holds in
    let whole : Holds (λ n. owed u b n ctokens) debt =
      λ n k. holds n k ∙ ap (λ x. some x) (omega arith) in
    let printed = in_units-Holds (λ n. owed u b n ctokens) debt whole in
    (
      in_units debt,
      (
        >>=-ok (add_debts underlying borrow_balance ctokens no_debt) _ debt h refl,
        (
          printed "ETH" refl,
          (
            printed "FEI" refl,
            (
              printed "FRAX" refl,
              (
                printed "RAI" refl,
                (
                  printed "DAI" refl,
                  (
                    printed "USDC" refl,
                    (
                      printed "LUSD" refl,
                      (
                        printed "USTw" refl,
                        (
                          printed "USDT" refl,
                          (
                            printed "WETH" refl ∙ ap (λ x. some x) (omega arith),
                            (printed "wstETH" refl ∙ ap (λ x. some x) (omega arith), tt),
                          ),
                        ),
                      ),
                    ),
                  ),
                ),
              ),
            ),
          ),
        ),
      ),
    )
