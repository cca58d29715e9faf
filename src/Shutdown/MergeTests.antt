-- ===== src/Shutdown/MergeTests.antt =====
-- Two snapshots that share a token and a holder, merged.
use tribe.Base.{◌≡◌, refl, false, [], ◌∷◌, ok, Distinct, distinct_sound, str_eq, str_eq_iff}
use tribe.Js.{keys, get, put, spread, AllEntries}
use tribe.Shutdown.CreateMerkleTrees.{Balances, merge_entry, merge_entries}
use tribe.Shutdown.Merge.{amount, first_of, merge_entries-amount}

abbrev first : Balances
first = ("0xt1", ("0xa", "1") ∷ ("0xb", "2") ∷ []) ∷ ("0xt2", ("0xc", "3") ∷ []) ∷ []

abbrev extra : Balances
extra = ("0xt1", ("0xb", "20") ∷ ("0xd", "4") ∷ []) ∷ ("0xt3", ("0xe", "5") ∷ []) ∷ []

abbrev merged : Balances
merged =
    ("0xt1", ("0xa", "1") ∷ ("0xb", "20") ∷ ("0xd", "4") ∷ [])
    ∷ ("0xt2", ("0xc", "3") ∷ [])
    ∷ ("0xt3", ("0xe", "5") ∷ [])
    ∷ []

merges : merge_entries false extra first ≡ ok merged
unfolding merge_entries merge_entry get put spread
merges = refl

tokens-Distinct : Distinct (keys extra)
tokens-Distinct = distinct_sound str_eq (λ x y e. (str_eq_iff x y).1 e) (keys extra) refl

holders-Distinct : AllEntries (λ t e. Distinct (keys e)) extra
holders-Distinct = (
  distinct_sound str_eq (λ x y e. (str_eq_iff x y).1 e) ("0xb" ∷ "0xd" ∷ []) refl,
  (distinct_sound str_eq (λ x y e. (str_eq_iff x y).1 e) ("0xe" ∷ []) refl, tt),
)

merge_entries-amount_example :
    amount merged "0xt1" "0xb" ≡ first_of (amount extra "0xt1" "0xb") (amount first "0xt1" "0xb")
merge_entries-amount_example =
    merge_entries-amount false extra first merged "0xt1" "0xb" tokens-Distinct holders-Distinct
      merges
