-- ===== src/Password/RoundTrip.antt =====
-- A hash verifies with the password that it was made of.
use braza_sso.Prelude.{
  ℕ, ◌≡◌, refl, true, some, [], ◌∷◌, ◌++◌, Text, codes, length, text_eq, text_eq_refl, ok, stop,
  arith, if◌then◌else◌,
}
use braza_sso.Env.Services.{Services}
use braza_sso.Go.Base64
use braza_sso.Go.Base64.RoundTrip.{IsBytes, HasNone, encode-HasNone, decode-encode}
use braza_sso.Go.Strings
use braza_sso.Password.{
  hash_password, verify_password, check_parts, scans_version, scan_costs, encode_hash,
  argon_salt_len, argon_key_len, argon_time, argon_memory, argon_threads,
}
use braza_sso.World.{World, Response, hash_mismatch, random_bytes}

-- What Argon2 and the random generator return: as many bytes as they are asked for.
pub record HashLaws (S : Services) : Type 0 where
  pub key-length :
      (input salt : Text) (time memory threads n : ℕ)
      → length (S.argon2_id_key input salt time memory threads n) ≡ n
  pub key-IsBytes :
      (input salt : Text) (time memory threads n : ℕ)
      → IsBytes (S.argon2_id_key input salt time memory threads n)
  pub random-IsBytes : (tick n : ℕ) → IsBytes (S.random tick n)

cut-HasNone :
    (sep : ℕ) (a s : Text) → HasNone sep a → (Strings.cut sep (a ++ (sep ∷ s)) ≡ (a, some s))
unfolding Strings.cut
cut-HasNone sep [] s h = ground arith
cut-HasNone sep (b ∷ a) s (other, h) = ground (arith, cut-HasNone sep a s h)

split_n-HasNone :
    (sep : ℕ) (a s : Text) → HasNone sep a → Strings.split_n 2 sep (a ++ (sep ∷ s)) ≡ a ∷ s ∷ []
unfolding Strings.split_n
split_n-HasNone sep a s h = ground (arith, cut-HasNone sep a s h)

scans_version-argon2 : scans_version (codes "v=19") ≡ true
unfolding scans_version
scans_version-argon2 = refl

scan_costs-argon2 : scan_costs (codes "m=65536,t=3,p=4") ≡ some (65536, 3, 4)
unfolding scan_costs
scan_costs-argon2 = refl

module _ (S : Services) where
  -- The key that is stored for a password, with a salt.
  abbrev pub key_of : Text → Text → Text
  key_of input salt = S.argon2_id_key input salt argon_time argon_memory argon_threads argon_key_len

  check_parts-hash :
      (input salt hash : Text)
      → IsBytes salt
      → IsBytes hash
      → length hash ≡ 32
      → check_parts S input (
          []
          ∷ codes "argon2id"
          ∷ codes "v=19"
          ∷ codes "m=65536,t=3,p=4"
          ∷ Base64.encode Base64.std salt
          ∷ Base64.encode Base64.std hash
          ∷ [])
        ≡ (if text_eq (key_of input salt) hash then ok tt else stop hash_mismatch)
  unfolding check_parts text_eq
  check_parts-hash input salt hash hs hh long = ground (
    arith,
    text_eq_refl (codes "argon2id"),
    scans_version-argon2,
    scan_costs-argon2,
    decode-encode salt hs,
    decode-encode hash hh,
  )

  verify_password-encode_hash :
      (password pepper salt hash : Text)
      → IsBytes salt
      → IsBytes hash
      → length hash ≡ 32
      → verify_password S password pepper (encode_hash salt hash)
        ≡ (if text_eq (key_of (password ++ pepper) salt) hash then ok tt else stop hash_mismatch)
  unfolding verify_password encode_hash Strings.split_n
  verify_password-encode_hash password pepper salt hash hs hh long = ground (
    arith,
    split_n-HasNone b'$' (Base64.encode Base64.std salt) (Base64.encode Base64.std hash)
        (encode-HasNone salt hs),
    check_parts-hash (password ++ pepper) salt hash hs hh long,
  )

  -- A hash that was made of a password verifies with it; and any other password verifies exactly if
  -- Argon2 gives the same key for it, with the salt that was drawn.
  pub hash_password-verify_password :
      (H : HashLaws S) (password other pepper : Text) (w : World S) {stored : Text}
      → (hash_password S {E = Response} password pepper w).0 ≡ ok stored
      → let salt = S.random w.tick argon_salt_len in
        (verify_password S password pepper stored ≡ ok tt)
        × (verify_password S other pepper stored ≡ (
            if text_eq (key_of (other ++ pepper) salt) (key_of (password ++ pepper) salt)
            then ok tt
            else stop hash_mismatch))
  unfolding hash_password random_bytes
  hash_password-verify_password H password other pepper w {stored} h =
      let salt = S.random w.tick argon_salt_len in
      let key = key_of (password ++ pepper) salt in
      let long =
        H.key-length (password ++ pepper) salt argon_time argon_memory argon_threads
          argon_key_len in
      let bytes =
        H.key-IsBytes (password ++ pepper) salt argon_time argon_memory argon_threads
          argon_key_len in
      let drawn = H.random-IsBytes w.tick argon_salt_len in
      let e : stored ≡ encode_hash salt key = ground arith in
      ground (
        arith,
        e,
        text_eq_refl key,
        verify_password-encode_hash password pepper salt key drawn bytes long,
        verify_password-encode_hash other pepper salt key drawn bytes long,
      )
