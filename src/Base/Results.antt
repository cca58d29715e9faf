-- ===== src/Base/Results.antt =====
-- Code that may throw or revert: a value, or the message of the error.
use Prim.Native.String.{String}
use mathlib.Core.Path.{◌≡◌, refl, sym, subst, ap}
use mathlib.Core.Bool.{Bool, true, false}

pub data Result {ℓ} (A : Type ℓ) : Type ℓ where
  ok : A → Result A
  err : String → Result A

abbrev ok_or {ℓ} : {A : Type ℓ} → A → Result A → A
ok_or d (ok a) = a
ok_or d (err _) = d

pub ok-injective {ℓ} : {A : Type ℓ} {a b : A} → ok a ≡ ok b → a ≡ b
ok-injective {a} e = ap (ok_or a) e

-- A step after code that may fail: an error ends the whole.
infixl 5 ◌>>=◌
abbrev pub ◌>>=◌ {ℓ κ} : {A : Type ℓ} {B : Type κ} → Result A → (A → Result B) → Result B
err message >>= next = err message
ok value >>= next = next value

-- Solidity's `require`; `if (!test) throw new Error(message)` in TypeScript.
abbrev pub require : (test : Bool) → (message : String) → Result (Unit {0})
require false message = err message
require true message = ok tt

infixl 5 ◌>>◌
abbrev pub ◌>>◌ {ℓ} : {C : Type ℓ} → (check : Result (Unit {0})) → (next : Result C) → Result C
check >> next = check >>= (λ unit. next)

pub >>=-eq-ok {ℓ κ} :
    {A : Type ℓ} {C : Type κ} (first : Result A) (next : A → Result C) {c : C}
    → (first >>= next) ≡ ok c
    → (a : A) × (first ≡ ok a) × (next a ≡ ok c)
>>=-eq-ok (err message) next h = cc
>>=-eq-ok (ok value) next h = (value, refl, h)

pub require-eq-ok : (b : Bool) (e : String) → require b e ≡ ok tt → b ≡ true
require-eq-ok true e h = refl
require-eq-ok false e h = cc

pub >>=-ok {ℓ κ} :
    {A : Type ℓ} {B : Type κ} (m : Result A) (f : A → Result B) (a : A) {b : B}
    → m ≡ ok a
    → f a ≡ ok b
    → (m >>= f) ≡ ok b
>>=-ok (ok x) f a {b} h k = subst (λ y. f y ≡ ok b) (ok-injective (sym h)) k
>>=-ok (err x) f a h k = cc

pub require-then-ok {ℓ} :
    {B : Type ℓ} (b : Bool) (e : String) (m : Result B) {x : B}
    → b ≡ true
    → m ≡ ok x
    → (require b e >> m) ≡ ok x
require-then-ok true e m h k = k
require-then-ok false e m h k = cc

pub require-then-eq-ok {ℓ} :
    {B : Type ℓ} (b : Bool) (e : String) (m : Result B) {x : B}
    → (require b e >> m) ≡ ok x
    → (b ≡ true) × (m ≡ ok x)
require-then-eq-ok true e m h = (refl, h)
require-then-eq-ok false e m h = cc

-- What holds of the value, if there is one. A record, so that goals keep the result in sight.
pub record Ensures {ℓ κ} {A : Type ℓ} (Q : A → Type κ) (m : Result A) : Type (ℓ ⊔ κ) where
  pub at : (a : A) → m ≡ ok a → Q a

pub Ensures-ok {ℓ κ} : {A : Type ℓ} {Q : A → Type κ} {a : A} → Q a → Ensures Q (ok a)
Ensures-ok {Q} h = record { at = λ b e. subst Q (ok-injective e) h }

pub Ensures-bind {ℓ κ μ} :
    {A : Type ℓ} {B : Type κ} {Q : B → Type μ} (m : Result A) (f : A → Result B)
    → ((a : A) → m ≡ ok a → Ensures Q (f a))
    → Ensures Q (m >>= f)
Ensures-bind (ok a) f h = h a refl
Ensures-bind (err e) f h = record { at = λ b x. cc }

pub Ensures-require {ℓ κ} :
    {B : Type ℓ} {Q : B → Type κ} (b : Bool) (e : String) (m : Result B)
    → (b ≡ true → Ensures Q m)
    → Ensures Q (require b e >> m)
Ensures-require true e m h = h refl
Ensures-require false e m h = record { at = λ b x. cc }
