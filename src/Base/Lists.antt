-- ===== src/Base/Lists.antt =====
-- Lists measured and indexed by native numbers, and predicates over lists.
use Prim.Native.Nat.{ℕ, zero, suc, ◌+◌}
use mathlib.Core.Path.{◌≡◌, refl, ap, subst}
use mathlib.Core.Logic.{◌≢◌}
use mathlib.Core.Bool.{Bool, true, false, not, ◌&&◌, ◌||◌}
use mathlib.Core.List.{List, [], ◌∷◌, ◌++◌, map}
use mathlib.Core.Option.{Option, none, some, some-injective}
use native.Mathlib.Omega.{arith}

module _ {ℓ} {A : Type ℓ} where
  abbrev pub length : List A → ℕ
  length [] = 0
  length (x ∷ xs) = suc (length xs)

  abbrev pub get_elem? : List A → ℕ → Option A
  get_elem? [] i = none
  get_elem? (x ∷ xs) zero = some x
  get_elem? (x ∷ xs) (suc i) = get_elem? xs i

  -- `Array.some`
  abbrev pub any : (A → Bool) → List A → Bool
  any p [] = false
  any p (x ∷ xs) = p x || any p xs

  abbrev pub All {κ} : (A → Type κ) → List A → Type κ
  All P [] = Unit
  All P (x ∷ xs) = P x × All P xs

  -- No two entries are equal.
  abbrev pub Distinct : List A → Type ℓ
  Distinct [] = Unit
  Distinct (x ∷ xs) = All (λ y. x ≢ y) xs × Distinct xs

  pub length-append : (xs ys : List A) → length (xs ++ ys) ≡ length xs + length ys
  length-append [] ys = omega arith
  length-append (x ∷ xs) ys = omega (arith, length-append xs ys)

module _ {ℓ} {A : Type ℓ} where
  pub length-map {κ} : {B : Type κ} (f : A → B) (xs : List A) → length (map f xs) ≡ length xs
  length-map f [] = refl
  length-map f (x ∷ xs) = ap suc (length-map f xs)

  pub All_at {κ} :
      (P : A → Type κ) (xs : List A) (i : ℕ) (x : A) → All P xs → get_elem? xs i ≡ some x → P x
  All_at P [] i x h e = cc
  All_at P (y ∷ ys) zero x h e = subst P (some-injective y x e) h.0
  All_at P (y ∷ ys) (suc i) x h e = All_at P ys i x h.1 e

pub get_elem?-map {ℓ κ} :
    {A : Type ℓ} {B : Type κ} (f : A → B) (xs : List A) (i : ℕ) (x : A)
    → get_elem? xs i ≡ some x
    → get_elem? (map f xs) i ≡ some (f x)
get_elem?-map f [] i x h = cc
get_elem?-map f (y ∷ ys) zero x h = ap (λ z. some (f z)) (some-injective y x h)
get_elem?-map f (y ∷ ys) (suc i) x h = get_elem?-map f ys i x h

-- A check that runs, for lists too long to compare by hand.
module _ {ℓ} {A : Type ℓ} (eq : A → A → Bool) where
  abbrev pub distinct : List A → Bool
  distinct [] = true
  distinct (x ∷ xs) = not (any (eq x) xs) && distinct xs

  module _ (complete : (x y : A) → x ≡ y → eq x y ≡ true) where
    absent : (x : A) (ys : List A) → not (any (eq x) ys) ≡ true → All (λ y. x ≢ y) ys
    absent x [] h = tt
    absent x (y ∷ ys) h = (λ e. ground (arith, complete x y e), absent x ys (ground arith))

    pub distinct_sound : (xs : List A) → distinct xs ≡ true → Distinct xs
    distinct_sound [] h = tt
    distinct_sound (x ∷ xs) h = (absent x xs (ground arith), distinct_sound xs (ground arith))
