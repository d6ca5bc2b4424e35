-- ===== src/Base/Equality.antt =====
-- Python's `==` and `in`, at each type whose values the program compares, and text as the list of
-- its code points.
use Prim.Native.Nat.{ℕ}
use Prim.Native.Char.{code}
use Prim.Native.String.{String}
use mathlib.Core.Path.{◌≡◌, refl}
use mathlib.Core.Logic.{◌↔◌, ◌≢◌}
use mathlib.Core.Bool.{Bool, true, false, ◌&&◌, ◌||◌}
use mathlib.Core.List.{List, [], ◌∷◌}
use native.Mathlib.Omega.{arith}
use kafka_flink_click_house.Base.Tests.{nat_beq, nat_beq_iff}

-- A type whose values Python compares by value.
pub record Comparable {ℓ} (A : Type ℓ) : Type ℓ where
  pub is_equal : A → A → Bool
  pub decides : (a b : A) → (is_equal a b ≡ true) ↔ (a ≡ b)

module _ {ℓ} {A : Type ℓ} ⦃e : Comparable A⦄ where
  infix 50 ◌==◌
  abbrev pub ◌==◌ : A → A → Bool
  a == b = e.is_equal a b

  pub eq_self : (a : A) → (a == a) ≡ true
  eq_self a = (e.decides a a).1 refl

  pub eq-of-beq : (a b : A) → (a == b) ≡ true → a ≡ b
  eq-of-beq a b = (e.decides a b).0

  pub ne_of_beq : (a b : A) → (a == b) ≡ false → a ≢ b
  ne_of_beq a b h p = ground (arith, e.decides a b)

  pub beq_of_ne : (a b : A) → a ≢ b → (a == b) ≡ false
  beq_of_ne a b h = ground (arith, e.decides a b)

  abbrev pub list_beq : List A → List A → Bool
  list_beq [] [] = true
  list_beq [] (y ∷ ys) = false
  list_beq (x ∷ xs) [] = false
  list_beq (x ∷ xs) (y ∷ ys) = x == y && list_beq xs ys

  pub list_beq_iff : (xs ys : List A) → (list_beq xs ys ≡ true) ↔ (xs ≡ ys)
  list_beq_iff [] [] = (λ h. refl, λ h. refl)
  list_beq_iff [] (y ∷ ys) = (λ h. cc, λ h. cc)
  list_beq_iff (x ∷ xs) [] = (λ h. cc, λ h. cc)
  list_beq_iff (x ∷ xs) (y ∷ ys) = (
    λ h. ground (arith, e.decides x y, list_beq_iff xs ys),
    λ h. ground (arith, e.decides x y, list_beq_iff xs ys),
  )

  -- `a in xs`
  abbrev pub contains : List A → A → Bool
  contains [] member = false
  contains (x ∷ xs) member = member == x || contains xs member

instance abbrev pub nat_eq : Comparable ℕ
nat_eq = record { is_equal = nat_beq; decides = nat_beq_iff }

instance abbrev pub list_eq {ℓ} : {A : Type ℓ} ⦃e : Comparable A⦄ → Comparable (List A)
list_eq = record { is_equal = list_beq; decides = list_beq_iff }

-- Python's `str`, as the list of its code points.
abbrev pub Text : Type 0
Text = List ℕ

-- A text literal.
abbrev pub codes : String → Text
codes String.[] = []
codes (String.◌∷◌ c s) = code c ∷ codes s
