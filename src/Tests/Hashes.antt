-- ===== src/Tests/Hashes.antt =====
-- The theorem on password hashes, applied: the toy Argon2 meets its laws.
use braza_sso.Prelude.{
  ℕ, zero, suc, Text, codes, [], ◌∷◌, ◌++◌, ok, stop, refl, ◌≡◌, ◌<◌, arith, length, text_eq,
}
use braza_sso.Env.Memory.{replicate, digest}
use braza_sso.Go.Base64.RoundTrip.{IsBytes}
use braza_sso.Password.{verify_password}
use braza_sso.Password.RoundTrip
use braza_sso.Tests.{services, start, secret, hash_of}
use braza_sso.World.{hash_mismatch}

length-replicate : (n b : ℕ) → length (replicate n b) ≡ n
length-replicate zero b = refl
length-replicate (suc n) b = ground (arith, length-replicate n b)

replicate-IsBytes : (n b : ℕ) → b < 256 → IsBytes (replicate n b)
replicate-IsBytes zero b h = tt
replicate-IsBytes (suc n) b h = (h, replicate-IsBytes n b h)

digest-lt : (s : Text) → digest s < 256
digest-lt [] = ground arith
digest-lt (b ∷ s) = omega arith

pub hash_laws : RoundTrip.HashLaws services
hash_laws = record {
  key-length = λ input salt time memory threads n. length-replicate n _;
  key-IsBytes =
      λ input salt time memory threads n. replicate-IsBytes n _ (digest-lt (input ++ salt));
  random-IsBytes = λ tick n. replicate-IsBytes n _ (omega arith);
}

hash_password-verify_password_example :
    (verify_password services secret (codes "p") (hash_of secret) ≡ ok tt)
    × (verify_password services (codes "x") (codes "p") (hash_of secret) ≡ stop hash_mismatch)
unfolding braza_sso.Password.hash_password text_eq
hash_password-verify_password_example =
    RoundTrip.hash_password-verify_password services hash_laws secret (codes "x") (codes "p") start
      {stored = hash_of secret} refl
