-- ===== src/Shutdown/Merge.antt =====
-- What the merge of createMerkleTrees.ts makes of two snapshots.
use tribe.Base.{
  ◌≡◌, refl, subst, Bool, Option, none, some, [], ◌∷◌, String, ok, >>=-eq-ok, ok-injective, All,
  Distinct, str_eq, str_eq_iff, if◌then◌else◌, Bool-cases, inl, inr, ◌≢◌, arith,
}
use tribe.Js.{Object, keys, get, put, spread, get-put, get_new, AllEntries}
use tribe.Shutdown.CreateMerkleTrees.{Balances, or_empty, merge_entry, merge_entries}

abbrev pub first_of {ℓ} : {A : Type ℓ} → Option A → Option A → Option A
first_of none b = b
first_of (some a) b = some a

-- The amount of a holder of a token.
abbrev pub amount : Balances → String → String → Option String
amount balances token holder = get (or_empty (get balances token)) holder

get-spread {ℓ} :
    {V : Type ℓ} (o p : Object V) (k : String)
    → Distinct (keys p)
    → get (spread o p) k ≡ first_of (get p k) (get o k)
unfolding spread get
get-spread o [] k d = refl
get-spread o ((j, v) ∷ p) k d = elim (Bool-cases (str_eq j k)) [
  | inl same ↦
      let absent =
        get_new p k (subst (λ x. All (λ y. x ≢ y) (keys p)) ((str_eq_iff j k).0 same) d.0) in
      rw (get-spread (put o j v) p k d.1, get-put o j k v, absent, same) refl
  | inr other ↦ rw (get-spread (put o j v) p k d.1, get-put o j k v, other) refl
]

amount-put :
    (balances : Balances) (j t h : String) (e : Object String)
    → amount (put balances j e) t h ≡ (if str_eq j t then get e h else amount balances t h)
amount-put balances j t h e = elim (Bool-cases (str_eq j t)) [
  | inl same ↦ rw (get-put balances j t e, same) refl
  | inr other ↦ rw (get-put balances j t e, other) refl
]

merge_entry-eq :
    (debug : Bool) (j : String) (e : Object String) (balances merged : Balances)
    → merge_entry debug (j, e) balances ≡ ok merged
    → merged ≡ put balances j (spread (or_empty (get balances j)) e)
unfolding merge_entry
merge_entry-eq debug j e balances merged m = ground arith

merge_entry-amount :
    (debug : Bool) (j : String) (e : Object String) (balances merged : Balances) (t h : String)
    → Distinct (keys e)
    → merge_entry debug (j, e) balances ≡ ok merged
    → amount merged t h
      ≡ (if str_eq j t then first_of (get e h) (amount balances j h) else amount balances t h)
merge_entry-amount debug j e balances merged t h d m =
    rw
      (
        merge_entry-eq debug j e balances merged m,
        amount-put balances j t h (spread (or_empty (get balances j)) e),
        get-spread (or_empty (get balances j)) e h d,
      )
      refl

amount-nil : (t h : String) → amount [] t h ≡ none
unfolding get
amount-nil t h = refl

amount-cons :
    (j t h : String) (e : Object String) (o : Balances)
    → amount ((j, e) ∷ o) t h ≡ (if str_eq j t then get e h else amount o t h)
unfolding get
amount-cons j t h e o = elim (Bool-cases (str_eq j t)) [
  | inl same ↦ rw same refl
  | inr other ↦ rw other refl
]

amount_new : (o : Balances) (t h : String) → All (λ j. t ≢ j) (keys o) → amount o t h ≡ none
unfolding get
amount_new o t h new = rw (get_new o t new) (amount-nil t h)

-- The merge that returns gives every holder of every token the amount of the extra snapshot where
-- it has one, and of the first snapshot otherwise. The tokens of the extra snapshot and the holders
-- of each of them are distinct, as the keys of JSON objects are.
pub merge_entries-amount :
    (debug : Bool) (extra balances merged : Balances) (token holder : String)
    → Distinct (keys extra)
    → AllEntries (λ t e. Distinct (keys e)) extra
    → merge_entries debug extra balances ≡ ok merged
    → amount merged token holder
      ≡ first_of (amount extra token holder) (amount balances token holder)
unfolding merge_entries
merge_entries-amount debug [] balances merged token holder d ds m =
    rw (← ok-injective m, amount-nil token holder) refl
merge_entries-amount debug ((j, e) ∷ extra) balances merged token holder d ds m =
    let (next, first, rest) = >>=-eq-ok (merge_entry debug (j, e) balances) _ m in
    let step = merge_entry-amount debug j e balances next token holder ds.0 first in
    let ih = merge_entries-amount debug extra next merged token holder d.1 ds.1 rest in
    elim (Bool-cases (str_eq j token)) [
      | inl same ↦
          let j-eq = (str_eq_iff j token).0 same in
          let absent =
            amount_new extra token holder (subst (λ x. All (λ y. x ≢ y) (keys extra)) j-eq d.0) in
          rw (ih, absent, step, amount-cons j token holder e extra, same, j-eq) refl
      | inr other ↦ rw (ih, step, amount-cons j token holder e extra, other) refl
    ]
