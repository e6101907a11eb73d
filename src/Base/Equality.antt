-- ===== src/Base/Equality.antt =====
-- `==` of the program: one operator for each type that has a decided equality.
use Prim.Native.Nat.{ℕ, compare, Ordering}
use Prim.Native.String.{String}
use mathlib.Core.Bool.{Bool, true, false, ◌&&◌}
use mathlib.Core.List.{List, [], ◌∷◌}
use mathlib.Core.Logic.{◌↔◌}
use mathlib.Core.Option.{Option, none, some}
use mathlib.Core.Path.{◌≡◌, refl}
use native.Mathlib.Omega.{arith}
use text.Mathlib.Text.{◌==◌ as str_eq}
use text.Mathlib.TextEquality.{eq_iff}

pub record Eq {ℓ} (A : Type ℓ) : Type ℓ where
  pub equal : A → A → Bool
  pub equal_iff : (a b : A) → (equal a b ≡ true) ↔ (a ≡ b)

infix 50 ◌==◌
abbrev pub ◌==◌ {ℓ} : {A : Type ℓ} ⦃test : Eq A⦄ → (a b : A) → Bool
◌==◌ ⦃test⦄ = test.equal

abbrev nat_beq : ℕ → ℕ → Bool
nat_beq a b = elim (compare a b) [ Ordering.eq ↦ true | _ ↦ false ]

pub nat_beq_iff : (a b : ℕ) → (nat_beq a b ≡ true) ↔ (a ≡ b)
nat_beq_iff a b = ground arith

instance abbrev pub nat_eq : Eq ℕ
nat_eq = record { equal = nat_beq; equal_iff = nat_beq_iff }

instance abbrev pub string_eq : Eq String
string_eq = record { equal = str_eq; equal_iff = eq_iff }

module _ {ℓ} {A : Type ℓ} ⦃e : Eq A⦄ where
  abbrev list_beq : List A → List A → Bool
  list_beq [] [] = true
  list_beq (x ∷ xs) (y ∷ ys) = x == y && list_beq xs ys
  list_beq _ _ = false

  pub list_beq_iff : (xs ys : List A) → (list_beq xs ys ≡ true) ↔ (xs ≡ ys)
  list_beq_iff [] [] = ground arith
  list_beq_iff (x ∷ xs) (y ∷ ys) = ground (arith, e.equal_iff x y, list_beq_iff xs ys)
  list_beq_iff [] (y ∷ ys) = ground arith
  list_beq_iff (x ∷ xs) [] = ground arith

  instance abbrev pub list_eq : Eq (List A)
  list_eq = record { equal = list_beq; equal_iff = list_beq_iff }

  abbrev option_beq : Option A → Option A → Bool
  option_beq none none = true
  option_beq (some x) (some y) = x == y
  option_beq _ _ = false

  pub option_beq_iff : (x y : Option A) → (option_beq x y ≡ true) ↔ (x ≡ y)
  option_beq_iff none none = ground arith
  option_beq_iff (some x) (some y) = ground (arith, e.equal_iff x y)
  option_beq_iff none (some y) = ground arith
  option_beq_iff (some x) none = ground arith

  instance abbrev pub option_eq : Eq (Option A)
  option_eq = record { equal = option_beq; equal_iff = option_beq_iff }

  pub ==-refl : (x : A) → (x == x) ≡ true
  ==-refl x = (e.equal_iff x x).1 refl

module _ {ℓ} {A B : Type ℓ} ⦃e : Eq A⦄ ⦃f : Eq B⦄ where
  abbrev pair_beq : A × B → A × B → Bool
  pair_beq (a, b) (c, d) = a == c && b == d

  pub pair_beq_iff : (x y : A × B) → (pair_beq x y ≡ true) ↔ (x ≡ y)
  pair_beq_iff (a, b) (c, d) = ground (arith, e.equal_iff a c, f.equal_iff b d)

  instance abbrev pub pair_eq : Eq (A × B)
  pair_eq = record { equal = pair_beq; equal_iff = pair_beq_iff }
