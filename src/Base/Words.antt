-- ===== src/Base/Words.antt =====
-- Solidity's `uint256` with its checked arithmetic, and mappings, whose default is zero.
use Prim.Native.Nat.{ℕ, ◌+◌, ◌-◌, ◌*◌, ◌/◌, ◌^◌, ◌≤◌, ◌<◌}
use Prim.Native.String.{String}
use mathlib.Core.Path.{◌≡◌, subst}
use mathlib.Core.Logic.{◌≢◌, inl, inr}
use native.Mathlib.Omega.{arith}
use tribe.Base.Tests.{ltb, leb, ◌==◌, if◌then◌else◌, Bool-cases, ==_iff}
use tribe.Base.Results.{Result, ok, err}

unfoldable pub uint256_mod : ℕ
uint256_mod = 2 ^ 256

abbrev pub panic : String
panic = "Panic(0x11): arithmetic operation overflowed"

unfoldable pub checked_add : ℕ → ℕ → Result ℕ
checked_add a b = if ltb (a + b) uint256_mod then ok (a + b) else err panic

unfoldable pub checked_sub : ℕ → ℕ → Result ℕ
checked_sub a b = if leb b a then ok (a - b) else err panic

unfoldable pub checked_mul : ℕ → ℕ → Result ℕ
checked_mul a b = if ltb (a * b) uint256_mod then ok (a * b) else err panic

unfoldable pub checked_div : ℕ → ℕ → Result ℕ
checked_div a b = if b == 0 then err "Panic(0x12): division by zero" else ok (a / b)

pub checked_add-eq : (a b c : ℕ) → checked_add a b ≡ ok c → (c ≡ a + b) × (c < uint256_mod)
unfolding checked_add
checked_add-eq a b c h = ground arith

pub checked_sub-eq : (a b c : ℕ) → checked_sub a b ≡ ok c → a ≡ c + b
unfolding checked_sub
checked_sub-eq a b c h = ground arith

pub checked_mul-eq : (a b c : ℕ) → checked_mul a b ≡ ok c → c ≡ a * b
unfolding checked_mul
checked_mul-eq a b c h = ground arith

pub checked_div-eq : (a b c : ℕ) → checked_div a b ≡ ok c → (c ≡ a / b) × (0 < b)
unfolding checked_div
checked_div-eq a b c h = ground arith

pub checked_div-ok : (a b : ℕ) → 0 < b → checked_div a b ≡ ok (a / b)
unfolding checked_div
checked_div-ok a b h = ground arith

pub checked_add-ok : (a b : ℕ) → a + b < uint256_mod → checked_add a b ≡ ok (a + b)
unfolding checked_add
checked_add-ok a b h = ground arith

pub checked_sub-ok : (a b : ℕ) → b ≤ a → checked_sub a b ≡ ok (a - b)
unfolding checked_sub
checked_sub-ok a b h = ground arith

pub checked_mul-ok : (a b : ℕ) → a * b < uint256_mod → checked_mul a b ≡ ok (a * b)
unfolding checked_mul
checked_mul-ok a b h = ground arith

module _ {ℓ} {V : Type ℓ} where
  -- `m[k] = v`
  abbrev pub update : (ℕ → V) → ℕ → V → ℕ → V
  update m k v j = if k == j then v else m j

  -- `m[k][l] = v`
  abbrev pub update₂ : (ℕ → ℕ → V) → ℕ → ℕ → V → ℕ → ℕ → V
  update₂ m k l v i j = if k == i then (if l == j then v else m i j) else m i j

  pub update_self : (m : ℕ → V) (k : ℕ) (v : V) → update m k v k ≡ v
  update_self m k v = ground arith

  pub update_ne : (m : ℕ → V) (k j : ℕ) (v : V) → k ≢ j → update m k v j ≡ m j
  update_ne m k j v h = ground arith

  pub update₂_keeps {κ} :
      (Q : ℕ → ℕ → V → Type κ) (m : ℕ → ℕ → V) (k l : ℕ) (v : V) (i j : ℕ)
      → ((i j : ℕ) → Q i j (m i j))
      → Q k l v
      → Q i j (update₂ m k l v i j)
  update₂_keeps Q m k l v i j old new = elim (Bool-cases (k == i)) [
    | inr other ↦ rw other (old i j)
    | inl same ↦ elim (Bool-cases (l == j)) [
      | inr other ↦ rw (same, other) (old i j)
      | inl same' ↦
          rw (same, same')
            (subst (λ x. Q x j v) ((==_iff k i).0 same)
              (subst (λ y. Q k y v) ((==_iff l j).0 same') new))
    ]
  ]
