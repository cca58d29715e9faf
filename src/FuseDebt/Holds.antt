-- ===== src/FuseDebt/Holds.antt =====
-- The object of getFuseBadDebt as a function of the names.
use tribe.Base.{
  ℕ, ◌+◌, ◌/◌, ◌^◌, ◌≡◌, inl, inr, refl, sym, ap, subst, ◌∙◌, true, Bool-cases, none, some, String,
  List, [], ◌∷◌, ok, err, str_eq, str_eq_iff, if◌then◌else◌,
}
use tribe.Js.{Object, keys, get, put, get-put, includes, AllEntries}
use tribe.FuseDebt.{underlyings, no_debt, add_debt, divide, in_units}

abbrev pub names : List String
names = keys no_debt

-- The debt of every name.
abbrev pub Holds : (String → ℕ) → Object ℕ → Type 0
Holds f debt = (n : String) → includes names n ≡ true → get debt n ≡ some (f n)

pub named : AllEntries (λ k v. includes names v ≡ true) underlyings
unfolding underlyings
named = (refl, (refl, (refl, (refl, (refl, (refl, (refl, (refl, (refl, (refl, (refl, tt)))))))))))

pub put-Holds :
    (name : String) (value : ℕ) (f g : String → ℕ) (debt : Object ℕ)
    → ((n : String) → g n ≡ (if str_eq name n then value else f n))
    → Holds f debt
    → Holds g (put debt name value)
put-Holds name value f g debt new holds n h = elim (Bool-cases (str_eq name n)) [
  | inl same ↦ get-put debt name n value ∙ rw (new n, same) refl
  | inr other ↦ get-put debt name n value ∙ rw (new n, other) (holds n h)
]

pub add_debt-some :
    (name : String) (amount so_far : ℕ) (debt : Object ℕ)
    → get debt name ≡ some so_far
    → add_debt (some name) amount debt ≡ ok (put debt name (so_far + amount))
unfolding add_debt
add_debt-some name amount so_far debt h =
    ap
      (λ o. elim o [
        | none ↦ err "Cannot read properties of undefined (reading 'add')"
        | some x ↦ ok (put debt name (x + amount))
      ])
      h

divide-some :
    (name : String) (unit amount : ℕ) (debt : Object ℕ)
    → get debt name ≡ some amount
    → divide name unit debt ≡ put debt name (amount / unit)
unfolding divide
divide-some name unit amount debt h =
    ap (λ o. elim o [ none ↦ debt | some x ↦ put debt name (x / unit) ]) h

-- A name's amount, divided.
abbrev pub over : String → ℕ → (String → ℕ) → String → ℕ
over name unit f n = if str_eq name n then f n / unit else f n

divide-Holds :
    (name : String) (unit : ℕ) (f : String → ℕ) (debt : Object ℕ)
    → includes names name ≡ true
    → Holds f debt
    → Holds (over name unit f) (divide name unit debt)
divide-Holds name unit f debt known holds =
    subst (Holds (over name unit f)) (sym (divide-some name unit (f name) debt (holds name known)))
      (put-Holds name (f name / unit) f (over name unit f) debt
        (λ n. elim (Bool-cases (str_eq name n)) [
          | inl same ↦ rw (same, (str_eq_iff name n).0 same) refl
          | inr other ↦ rw other refl
        ])
        holds)

pub in_units-Holds :
    (f : String → ℕ) (debt : Object ℕ)
    → Holds f debt
    → Holds
        (over "USDT" (10 ^ 6) (
          over "USTw" (10 ^ 6) (
            over "LUSD" (10 ^ 18) (
              over "USDC" (10 ^ 6) (
                over "DAI" (10 ^ 18) (
                  over "RAI"
                    (10 ^ 18)
                    (over "FRAX" (10 ^ 18) (over "FEI" (10 ^ 18) (over "ETH" (10 ^ 18) f)))))))))
        (in_units debt)
unfolding in_units
in_units-Holds f debt h = divide-Holds "USDT" _ _ _ refl (
    divide-Holds "USTw" _ _ _ refl (
      divide-Holds "LUSD" _ _ _ refl (
        divide-Holds "USDC" _ _ _ refl (
          divide-Holds "DAI" _ _ _ refl (
            divide-Holds "RAI" _ _ _ refl (
              divide-Holds "FRAX" _ _ _ refl
                (divide-Holds "FEI" _ _ _ refl (divide-Holds "ETH" _ f debt refl h))))))))

zeros :
    (o : Object ℕ) (n : String)
    → AllEntries (λ k v. v ≡ 0) o
    → includes (keys o) n ≡ true
    → get o n ≡ some 0
unfolding get
zeros [] n z h = cc
zeros ((k, v) ∷ o) n z h = elim (Bool-cases (str_eq k n)) [
  | inl same ↦ rw same (ap (λ x. some x) z.0)
  | inr other ↦ rw other (zeros o n z.1 (rw other at h))
]

pub no_debt-Holds : Holds (λ n. 0) no_debt
unfolding get
no_debt-Holds n h =
    zeros no_debt n
      (refl, (refl, (refl, (refl, (refl, (refl, (refl, (refl, (refl, (refl, (refl, tt))))))))))) h
