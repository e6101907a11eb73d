-- ===== src/Server/Replies/Passed.antt =====
-- What has held when a chain of checks passes.
use cmp.Base.{ℕ, Bool, true, false, Option, none, some, ◌≡◌, arith, refl, nat_eq}
use cmp.Base.Bytes.{Bytes}
use cmp.Protocol.Messages.{ServerMessage}
use cmp.Server.Replies.{Checked, pass, refuse, ◌>>=◌, ◌>>◌, or_refuse, require, fixed}

pub passed_value {ℓ κ} :
    {A : Type ℓ} {B : Type κ} (o : Option A) (m : ServerMessage) (f : A → Checked B) (b : B)
    → (or_refuse o m >>= f) ≡ pass b
    → (a : A) × (o ≡ some a) × (f a ≡ pass b)
passed_value none m f b h = absurd (ground (arith, h))
passed_value (some a) m f b h = (a, refl, h)

pub passed_check {κ} :
    {B : Type κ} (t : Bool) (m : ServerMessage) (k : Checked B) (b : B)
    → (require t m >> k) ≡ pass b
    → (t ≡ true) × (k ≡ pass b)
passed_check true m k b h = (refl, h)
passed_check false m k b h = absurd (ground (arith, h))

pub fixed_same : (n : ℕ) (bytes arr : Bytes) → fixed n bytes ≡ some arr → arr ≡ bytes
unfolding fixed
fixed_same n bytes arr h = ground arith

pub passed_then {κ} :
    {B : Type κ} (c : Checked (Unit {0})) (k : Checked B) (b : B) → (c >> k) ≡ pass b → k ≡ pass b
passed_then (pass _) k b h = h
passed_then (refuse m) k b h = absurd (ground (arith, h))
