-- ===== src/Base/Bytes.antt =====
-- Byte strings, big-endian words, and the checked increment of a `u32`.
use Prim.Native.Nat.{ℕ, ◌+◌, ◌-◌, ◌/◌, ◌%◌, ◌^◌, ◌≤◌}
use Prim.Native.Char.{code}
use Prim.Native.String.{String}
use mathlib.Core.List.{List, [], ◌∷◌, ◌++◌}
use mathlib.Core.Option.{Option, none, some}
use mathlib.Core.Path.{◌≡◌, refl}
use native.Mathlib.Omega.{arith}
use cmp.Base.Tests.{if◌then◌else◌, ltb}
use cmp.Base.Lists.{length}

abbrev pub Bytes : Type 0
Bytes = List ℕ

-- The code points of a text: its bytes, if it is ASCII.
abbrev pub ascii : String → Bytes
ascii String.[] = []
ascii (String.◌∷◌ c s) = code c ∷ ascii s

abbrev pub u32_max : ℕ
u32_max = 2 ^ 32 - 1

-- `n.checked_add(1)` at type `u32`.
unfoldable pub checked_succ : ℕ → Option ℕ
checked_succ n = if ltb n u32_max then some (n + 1) else none

-- `n.to_be_bytes()` at type `u32`.
unfoldable pub be32 : ℕ → Bytes
be32 n = n / 2 ^ 24 % 256 ∷ n / 2 ^ 16 % 256 ∷ n / 2 ^ 8 % 256 ∷ n % 256 ∷ []

-- `n.to_be_bytes()` at type `u64`.
unfoldable pub be64 : ℕ → Bytes
unfolding be32
be64 n = be32 (n / 2 ^ 32) ++ be32 n

pub length-be32 : (n : ℕ) → length (be32 n) ≡ 4
unfolding be32
length-be32 n = refl

pub be32-injective : (m n : ℕ) → m ≤ u32_max → n ≤ u32_max → be32 m ≡ be32 n → m ≡ n
unfolding be32
be32-injective m n h k e = ground arith

-- Two concatenations that split at the same place are equal part by part.
pub append-injective {ℓ} :
    {A : Type ℓ} (xs ys : List A) {us vs : List A}
    → length xs ≡ length ys
    → xs ++ us ≡ ys ++ vs
    → (xs ≡ ys) × (us ≡ vs)
append-injective [] [] h e = (refl, e)
append-injective [] (y ∷ ys) h e = absurd (omega arith)
append-injective (x ∷ xs) [] h e = absurd (omega arith)
append-injective (x ∷ xs) (y ∷ ys) {us} {vs} h e =
    ground (arith, append-injective xs ys {us = us} {vs = vs})
