-- ===== src/Jwt.antt =====
-- internal/auth/jwt.go: access tokens. Signing and the checks on a signed token are golang-jwt's.
use braza_sso.Prelude.{ℕ, ◌+◌, List, [], ◌∷◌, codes, Bool, Text, M, pure, or_stop, ◌>>=◌}
use braza_sso.Model.{Claims}
use braza_sso.Env.Services.{Services}
use braza_sso.Go.Base64
use braza_sso.Go.Fmt
use braza_sso.World.{World, failure, Call, now, random_bytes}

-- The settings that `main` reads from the environment and hands to the handlers.
pub record Config : Type 0 where
  pub base_url : Text
  pub frontend_url : Text
  pub pepper : Text
  pub issuer : Text
  pub access_ttl : ℕ
  -- The modulus and the exponent of the public key, as big-endian bytes
  pub modulus : Text
  pub exponent : Text

-- The payload of a token.
abbrev pub claims_of : Config → ℕ → Text → Text → Text → Bool → Text → Claims
claims_of c t jti user_id email email_verified audience = record {
  email = email;
  email_verified = email_verified;
  issuer = c.issuer;
  subject = user_id;
  audience = audience;
  expires_at = t + c.access_ttl;
  issued_at = t;
  jti = jti;
}

module _ (S : Services) where
  unfoldable pub new_jti : {E : Type 0} → M (World S) E Text
  unfolding random_bytes Fmt.hex
  new_jti = do b ← random_bytes S 16; pure (Fmt.hex b)

  unfoldable pub issue_access_token : Config → Text → Text → Bool → Text → Call S Text
  unfolding now new_jti
  issue_access_token c user_id email email_verified audience = do
    t ← now S
    jti ← new_jti
    or_stop (S.sign (claims_of c t jti user_id email email_verified audience)) failure

  unfoldable pub verify_access_token : Text → Call S Claims
  unfolding now
  verify_access_token token = do t ← now S; or_stop (S.verify t token) failure

-- `PublicKeyJWK`
unfoldable pub public_key_jwk : Config → List (Text × Text)
unfolding Base64.encode
public_key_jwk c =
    (codes "kty", codes "RSA")
    ∷ (codes "use", codes "sig")
    ∷ (codes "alg", codes "RS256")
    ∷ (codes "kid", codes "braza-sso-key-1")
    ∷ (codes "n", Base64.encode Base64.url c.modulus)
    ∷ (codes "e", Base64.encode Base64.url c.exponent)
    ∷ []
