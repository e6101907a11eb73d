-- ===== src/Base/Rows.antt =====
-- A database table as the list of its rows, in the order of their `rowid`, and the statements
-- that the server runs on one: SELECT ... LIMIT 1, SELECT COUNT(*), DELETE ... WHERE.
use Prim.Native.Nat.{ℕ, suc, ◌+◌, ◌≤◌}
use mathlib.Core.Bool.{Bool, true, false}
use mathlib.Core.List.{List, [], ◌∷◌, ◌++◌}
use mathlib.Core.Option.{Option, none, some}
use mathlib.Core.Path.{◌≡◌, refl}
use native.Mathlib.Omega.{arith}
use cmp.Base.Tests.{if◌then◌else◌, is_some}
use cmp.Base.Lists.{length}

-- A predicate of every row.
abbrev pub All {ℓ κ} : {A : Type ℓ} → (A → Type κ) → List A → Type κ
All P [] = Unit
All P (x ∷ xs) = P x × All P xs

module _ {ℓ} {A : Type ℓ} where
  -- The first row that meets the test.
  unfoldable pub find : (A → Bool) → List A → Option A
  find p [] = none
  find p (x ∷ xs) = if p x then some x else find p xs

  unfoldable pub count : (A → Bool) → List A → ℕ
  count p [] = 0
  count p (x ∷ xs) = if p x then suc (count p xs) else count p xs

  unfoldable pub delete : (A → Bool) → List A → List A
  delete p [] = []
  delete p (x ∷ xs) = let rest = delete p xs in if p x then rest else x ∷ rest

  unfoldable pub select : (A → Bool) → List A → List A
  select p [] = []
  select p (x ∷ xs) = let rest = select p xs in if p x then x ∷ rest else rest

  -- SELECT EXISTS.
  abbrev pub exists : (A → Bool) → List A → Bool
  exists p xs = is_some (find p xs)

  pub count-delete_self :
      (p : A → Bool) (xs : List A) → length (delete p xs) + count p xs ≡ length xs
  unfolding count delete
  count-delete_self p [] = omega arith
  count-delete_self p (x ∷ xs) = ground (arith, count-delete_self p xs)

  pub count-delete-le : (p q : A → Bool) (xs : List A) → count q (delete p xs) ≤ count q xs
  unfolding count delete
  count-delete-le p q [] = omega arith
  count-delete-le p q (x ∷ xs) = ground (arith, count-delete-le p q xs)

  pub length-delete-le : (p : A → Bool) (xs : List A) → length (delete p xs) ≤ length xs
  unfolding delete
  length-delete-le p [] = omega arith
  length-delete-le p (x ∷ xs) = ground (arith, length-delete-le p xs)

  pub count-append : (p : A → Bool) (xs ys : List A) → count p (xs ++ ys) ≡ count p xs + count p ys
  unfolding count
  count-append p [] ys = omega arith
  count-append p (x ∷ xs) ys = ground (arith, count-append p xs ys)

  pub length-select : (p : A → Bool) (xs : List A) → length (select p xs) ≡ count p xs
  unfolding count select
  length-select p [] = refl
  length-select p (x ∷ xs) = ground (arith, length-select p xs)

  -- A row is found in the part that is looked at first.
  pub find-append :
      (p : A → Bool) (xs ys : List A)
      → find p (xs ++ ys) ≡ (if exists p xs then find p xs else find p ys)
  unfolding find
  find-append p [] ys = refl
  find-append p (x ∷ xs) ys = ground (arith, find-append p xs ys)

  pub find_holds : (p : A → Bool) (xs : List A) {a : A} → find p xs ≡ some a → p a ≡ true
  unfolding find
  find_holds p [] h = ground arith
  find_holds p (x ∷ xs) {a} h = ground (arith, find_holds p xs {a = a})

  -- No row of another kind goes.
  pub select-delete_other :
      (p q : A → Bool) (xs : List A)
      → ((x : A) → q x ≡ true → p x ≡ false)
      → select q (delete p xs) ≡ select q xs
  unfolding select delete
  select-delete_other p q [] h = refl
  select-delete_other p q (x ∷ xs) h = ground (arith, select-delete_other p q xs h, h x)

  pub find-delete_other :
      (p q : A → Bool) (xs : List A)
      → ((x : A) → q x ≡ true → p x ≡ false)
      → find q (delete p xs) ≡ find q xs
  unfolding find delete
  find-delete_other p q [] h = refl
  find-delete_other p q (x ∷ xs) h = ground (arith, find-delete_other p q xs h, h x)

  pub find-delete_self :
      (p q : A → Bool) (xs : List A)
      → ((x : A) → q x ≡ true → p x ≡ true)
      → find q (delete p xs) ≡ none
  unfolding find delete
  find-delete_self p q [] h = refl
  find-delete_self p q (x ∷ xs) h = ground (arith, find-delete_self p q xs h, h x)

  pub count-eq-zero_of_find : (p : A → Bool) (xs : List A) → find p xs ≡ none → count p xs ≡ 0
  unfolding find count
  count-eq-zero_of_find p [] h = refl
  count-eq-zero_of_find p (x ∷ xs) h = ground (arith, count-eq-zero_of_find p xs)

  pub select-append :
      (p : A → Bool) (xs ys : List A) → select p (xs ++ ys) ≡ select p xs ++ select p ys
  unfolding select
  select-append p [] ys = refl
  select-append p (x ∷ xs) ys = ground (arith, select-append p xs ys)

module _ {ℓ κ} {A : Type ℓ} (P : A → Type κ) where
  pub All-append : (xs ys : List A) → All P xs → All P ys → All P (xs ++ ys)
  All-append [] ys h k = k
  All-append (x ∷ xs) ys h k = (h.0, All-append xs ys h.1 k)

  pub All-delete : (p : A → Bool) (xs : List A) → All P xs → All P (delete p xs)
  unfolding delete
  All-delete p [] h = h
  All-delete p (x ∷ xs) h = ground (arith, All-delete p xs h.1)

  pub All-find : (p : A → Bool) (xs : List A) {a : A} → All P xs → find p xs ≡ some a → P a
  unfolding find
  All-find p [] h e = ground arith
  All-find p (x ∷ xs) {a} h e = ground (arith, All-find p xs {a = a} h.1)
