-- ===== src/Tests/Toy.antt =====
-- A small implementation of the third-party functions that keeps what their documentation
-- promises. It is no cryptography: it shows that the promises can be met together.
use cmp.Base.{
  ℕ, ◌+◌, refl, Option, none, some, [], ◌∷◌, ◌++◌, take, arith, ◌==◌, nat_eq, list_eq, ==-refl,
  if◌then◌else◌,
}
use cmp.Base.Bytes.{Bytes}
use cmp.Crypto.Kdf.{zeros}
use cmp.Crypto.Primitives.{
  Primitives, AesCorrect, DhAgrees, MontgomeryAgrees, SignatureCorrect, HkdfTotal,
}

abbrev pub sum : Bytes → ℕ
sum [] = 0
sum (x ∷ xs) = x + sum xs

-- So many bytes of a string, padded by zeros.
abbrev pub fit : ℕ → Bytes → Bytes
fit n xs = take n (xs ++ zeros n)

abbrev pub toy_decrypt : Bytes → Bytes → Bytes → Bytes → Option Bytes
toy_decrypt k n [] aad = none
toy_decrypt k n (t ∷ m) aad = if t == sum k + (sum n + sum aad) then some m else none

abbrev pub toy_montgomery : Bytes → Bytes
toy_montgomery [] = []
toy_montgomery (x ∷ xs) = 0 ∷ xs

abbrev pub toy : Primitives
toy = record {
  hkdf_sha256 = λ salt ikm info n. some (fit n (ikm ++ salt));
  hmac_sha256 = λ k d. some (d ++ k);
  aes_new = λ k. some k;
  aes_encrypt = λ k n m aad. some ((sum k + (sum n + sum aad)) ∷ m);
  aes_decrypt = toy_decrypt;
  diffie_hellman = λ a b. (sum a + sum b) ∷ [];
  x25519_public = λ a. 0 ∷ a;
  ed25519_public = λ seed. 7 ∷ seed;
  ed25519_scalar = λ seed. seed;
  ed25519_sign = λ seed m. 7 ∷ seed ++ m;
  ed25519_verify = λ vk m sig. sig == vk ++ m;
  to_montgomery = toy_montgomery;
}

pub toy-AesCorrect : AesCorrect toy
toy-AesCorrect k n m aad c h = ground arith

pub toy-DhAgrees : DhAgrees toy
toy-DhAgrees a b = ground arith

pub toy-MontgomeryAgrees : MontgomeryAgrees toy
toy-MontgomeryAgrees seed = refl

pub toy-SignatureCorrect : SignatureCorrect toy
toy-SignatureCorrect seed m = ==-refl ((7 ∷ seed) ++ m)

pub toy-HkdfTotal : HkdfTotal toy
toy-HkdfTotal = record {
  root = λ salt ikm info. (fit 64 (ikm ++ salt), refl);
  message = λ salt ikm info. (fit 44 (ikm ++ salt), refl);
  secret = λ salt ikm info. (fit 32 (ikm ++ salt), refl);
}
