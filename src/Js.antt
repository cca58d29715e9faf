-- ===== src/Js.antt =====
-- What the TypeScript takes from its language: objects with string keys in insertion order (no key
-- of the program is a number, which an object would move to the front), command line arguments,
-- and `String.prototype.toLowerCase` on ASCII.
use Prim.Native.Char.{Char, code}
use mathlib.Core.Path.{subst₂}
use mathlib.Core.Option.{some-injective}
use tribe.Base.{
  Bool-cases, inl, inr, ℕ, ◌≡◌, refl, ◌≢◌, Bool, Option, none, some, List, [], ◌∷◌, ◌++◌, String,
  str_eq, str_eq_iff, ◌==◌, if◌then◌else◌, All, get_elem?, any, arith,
}

abbrev pub Object {ℓ} : Type ℓ → Type ℓ
Object V = List (String × V)

module _ {ℓ} {V : Type ℓ} where
  -- `Object.keys(o)`
  abbrev pub keys : Object V → List String
  keys [] = []
  keys ((k, v) ∷ o) = k ∷ keys o

  -- `Object.values(o)`
  abbrev pub values : Object V → List V
  values [] = []
  values ((k, v) ∷ o) = v ∷ values o

  -- `o[key]`, `none` for `undefined`
  unfoldable pub get : Object V → String → Option V
  get [] key = none
  get ((k, v) ∷ o) key = if str_eq k key then some v else get o key

  -- `o[key] = value`: in place where the key is there, at the end where it is not.
  unfoldable pub put : Object V → String → V → Object V
  put [] key value = (key, value) ∷ []
  put ((k, v) ∷ o) key value = if str_eq k key then (k, value) ∷ o else (k, v) ∷ put o key value

  -- `{ ...o, ...p }`
  unfoldable pub spread : Object V → Object V → Object V
  spread o [] = o
  spread o ((k, v) ∷ p) = spread (put o k v) p

  pub get-put :
      (o : Object V) (k j : String) (v : V)
      → get (put o k v) j ≡ (if str_eq k j then some v else get o j)
  unfolding get put
  get-put [] k j v = refl
  get-put ((i, w) ∷ o) k j v =
      ground (arith, str_eq_iff k j, str_eq_iff i k, str_eq_iff i j, get-put o k j v)

  -- A property of every entry.
  abbrev pub AllEntries {κ} : (String → V → Type κ) → Object V → Type κ
  AllEntries P = All (λ e. P e.0 e.1)

  pub AllEntries-get {κ} :
      (P : String → V → Type κ) (o : Object V) (k : String) (v : V)
      → AllEntries P o
      → get o k ≡ some v
      → P k v
  unfolding get
  AllEntries-get P [] k v h e = cc
  AllEntries-get P ((j, w) ∷ o) k v h e =
      let found : (if str_eq j k then some w else get o k) ≡ some v = e in
      elim (Bool-cases (str_eq j k)) [
        | inl same ↦ subst₂ P ((str_eq_iff j k).0 same) (some-injective w v (rw same at found)) h.0
        | inr other ↦ AllEntries-get P o k v h.1 (rw other at found)
      ]

module _ {ℓ} {V : Type ℓ} where
  pub keys-put_old :
      (o : Object V) (k : String) (v old : V) → get o k ≡ some old → keys (put o k v) ≡ keys o
  unfolding get put
  keys-put_old [] k v old h = cc
  keys-put_old ((j, w) ∷ o) k v old h = ground (arith, keys-put_old o k v old)

  -- A key that no entry has is added at the end.
  pub put_new : (o : Object V) (k : String) (v : V) → get o k ≡ none → put o k v ≡ o ++ (k, v) ∷ []
  unfolding get put
  put_new [] k v h = refl
  put_new ((j, w) ∷ o) k v h = ground (arith, put_new o k v)

  pub get_new : (o : Object V) (k : String) → All (λ j. k ≢ j) (keys o) → get o k ≡ none
  unfolding get
  get_new [] k h = refl
  get_new ((j, w) ∷ o) k h = ground (arith, get_new o k h.1, str_eq_iff j k, h.0)

-- `xs.includes(x)` on strings
abbrev pub includes : List String → String → Bool
includes xs x = any (λ y. str_eq y x) xs

-- `process.argv[i]`
abbrev pub argument : List String → ℕ → Option String
argument = get_elem?

-- The character at the place in `lower` where `c` stands in `upper`, or `c`.
translate : String → String → Char → Char
translate (String.◌∷◌ u us) (String.◌∷◌ l ls) c = if code u == code c then l else translate us ls c
translate _ _ c = c

-- `text.toLowerCase()` for ASCII text
unfoldable pub to_lower_case : String → String
unfolding translate
to_lower_case String.[] = String.[]
to_lower_case (String.◌∷◌ c s) =
    String.◌∷◌ (translate "ABCDEFGHIJKLMNOPQRSTUVWXYZ" "abcdefghijklmnopqrstuvwxyz" c)
      (to_lower_case s)

to_lower_case_example : to_lower_case "0x956F47Fz" ≡ "0x956f47fz"
unfolding to_lower_case
to_lower_case_example = refl
