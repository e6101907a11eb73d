-- ===== src/Base/HashMap.antt =====
-- `std::collections::HashMap` as an association list with distinct keys. No code of the program
-- depends on the order of entries.
use Prim.Native.Nat.{◌+◌, ◌≤◌}
use mathlib.Core.List.{List, [], ◌∷◌}
use mathlib.Core.Option.{Option, none, some}
use mathlib.Core.Path.{◌≡◌, refl}
use native.Mathlib.Omega.{arith}
use cmp.Base.Tests.{if◌then◌else◌}
use cmp.Base.Lists.{length}
use cmp.Base.Equality.{Eq, ◌==◌}

abbrev pub HashMap {ℓ} : Type ℓ → Type ℓ → Type ℓ
HashMap K V = List (K × V)

module _ {ℓ} {K V : Type ℓ} ⦃e : Eq K⦄ where
  unfoldable pub get : K → HashMap K V → Option V
  get k [] = none
  get k ((j, v) ∷ m) = if j == k then some v else get k m

  unfoldable pub remove : K → HashMap K V → HashMap K V
  remove k [] = []
  remove k ((j, v) ∷ m) = let rest = remove k m in if j == k then rest else (j, v) ∷ rest

  unfoldable pub insert : K → V → HashMap K V → HashMap K V
  unfolding remove
  insert k v m = (k, v) ∷ remove k m

  -- The keys are distinct.
  abbrev pub IsMap : HashMap K V → Type ℓ
  IsMap [] = Unit
  IsMap ((k, v) ∷ m) = (get k m ≡ none) × IsMap m

  pub get-remove :
      (k j : K) (m : HashMap K V) → get j (remove k m) ≡ (if k == j then none else get j m)
  unfolding get remove
  get-remove k j [] = ground arith
  get-remove k j ((i, v) ∷ m) =
      ground (arith, get-remove k j m, e.equal_iff i k, e.equal_iff i j, e.equal_iff k j)

  pub get-insert :
      (k j : K) (v : V) (m : HashMap K V)
      → get j (insert k v m) ≡ (if k == j then some v else get j m)
  unfolding get insert
  get-insert k j v m = ground (arith, get-remove k j m)

  pub length-remove-le : (k : K) (m : HashMap K V) → length (remove k m) ≤ length m
  unfolding remove
  length-remove-le k [] = omega arith
  length-remove-le k ((j, v) ∷ m) = ground (arith, length-remove-le k m)

  remove_absent : (k : K) (m : HashMap K V) → get k m ≡ none → remove k m ≡ m
  unfolding get remove
  remove_absent k [] h = refl
  remove_absent k ((j, v) ∷ m) h = ground (arith, remove_absent k m)

  pub remove-IsMap : (k : K) (m : HashMap K V) → IsMap m → IsMap (remove k m)
  unfolding remove
  remove-IsMap k [] h = tt
  remove-IsMap k ((j, v) ∷ m) h =
      ground (arith, remove-IsMap k m h.1, get-remove k j m, e.equal_iff j k, e.equal_iff k j)

  pub insert-IsMap : (k : K) (v : V) (m : HashMap K V) → IsMap m → IsMap (insert k v m)
  unfolding insert
  insert-IsMap k v m h = ground (arith, remove-IsMap k m h, get-remove k k m, e.equal_iff k k)

  pub length-insert-le : (k : K) (v : V) (m : HashMap K V) → length (insert k v m) ≤ length m + 1
  unfolding insert
  length-insert-le k v m = omega (arith, length-remove-le k m)

  pub length-remove_present :
      (k : K) (v : V) (m : HashMap K V)
      → IsMap m
      → get k m ≡ some v
      → length (remove k m) + 1 ≡ length m
  unfolding get remove
  length-remove_present k v [] d h = ground arith
  length-remove_present k v ((j, w) ∷ m) d h =
      ground (arith, length-remove_present k v m d.1, remove_absent k m, e.equal_iff j k)

  -- To take an entry out and to put it back gives the same map.
  pub length-insert-remove :
      (k : K) (v : V) (m : HashMap K V)
      → IsMap m
      → get k m ≡ some v
      → length (insert k v (remove k m)) ≡ length m
  unfolding insert
  length-insert-remove k v m d h = ground (
    arith,
    length-remove_present k v m d h,
    get-remove k k m,
    e.equal_iff k k,
    remove_absent k (remove k m),
  )

  pub get-insert-remove :
      (k j : K) (v : V) (m : HashMap K V)
      → get k m ≡ some v
      → get j (insert k v (remove k m)) ≡ get j m
  get-insert-remove k j v m h =
      ground (arith, get-insert k j v (remove k m), get-remove k j m, e.equal_iff k j)

  pub get-remove_self : (k : K) (m : HashMap K V) → get k (remove k m) ≡ none
  get-remove_self k m = ground (arith, get-remove k k m, e.equal_iff k k)
