-- ===== src/Http/Documents.antt =====
-- The JSON documents of the responses: the structs that the handlers encode, and `writeJSON`.
use braza_sso.Prelude.{
  ℕ, Bool, true, Option, none, some, List, [], ◌∷◌, map, Text, String, codes, text_eq,
  if◌then◌else◌,
}
use braza_sso.World.{
  Json, string, strings, Body, empty, error_body, message_body, plain_error, weak_password,
  login_response, token_response, mfa_required, enrolled, recovered, too_many_requests, userinfo,
  redirect, document, key_set, text,
}

-- The value of a field.
pub data Value : Type 0 where
  json : Json → Value
  number : ℕ → Value
  boolean : Bool → Value
  -- A list with one object of strings
  object : List (Text × Text) → Value

abbrev field : String → Text → Text × Value
field name value = (codes name, json (string value))

-- `loginResponse` and `tokenResponse`, whose ID token is left out when it is empty.
unfoldable pub token_fields : Text → List (Text × Value)
token_fields access_token =
    field "access_token" access_token
    ∷ field "token_type" (codes "Bearer")
    ∷ (codes "expires_in", number 900)
    ∷ []

unfoldable pub id_token_fields : Text → List (Text × Value) → List (Text × Value)
id_token_fields [] fields = fields
id_token_fields (b ∷ id_token) fields = field "id_token" (b ∷ id_token) ∷ fields

-- The fields of a body that is a JSON object, in no order.
unfoldable pub fields : Body → Option (List (Text × Value))
unfolding token_fields id_token_fields
fields (error_body message) = some (field "error" message ∷ [])
fields (message_body message) = some (field "message" message ∷ [])
fields (weak_password violations) = some (
    field "error" (codes "password does not meet policy requirements")
    ∷ (codes "violations", json (strings violations))
    ∷ [])
fields (login_response access_token) = some (token_fields access_token)
fields (token_response access_token id_token) =
    some (id_token_fields id_token (token_fields access_token))
fields (mfa_required session) =
    some ((codes "mfa_required", boolean true) ∷ field "mfa_session_id" session ∷ [])
fields (enrolled secret uri recovery_codes) = some (
    field "secret" secret
    ∷ field "otp_uri" uri
    ∷ (codes "recovery_codes", json (strings recovery_codes))
    ∷ [])
fields (recovered access_token) = some (
    field "message" (codes "recovery code accepted; please re-enroll 2FA")
    ∷ (codes "reenroll_required", boolean true)
    ∷ field "access_token" access_token
    ∷ field "token_type" (codes "Bearer")
    ∷ [])
fields (userinfo sub email email_verified) =
    some (
      field "sub" sub ∷ field "email" email ∷ (codes "email_verified", boolean email_verified) ∷ [])
fields (document entries) = some (map (λ entry. (entry.0, json entry.1)) entries)
fields (key_set key) = some ((codes "keys", object key) ∷ [])
fields empty = none
fields (plain_error message) = none
fields (too_many_requests seconds) = none
fields (redirect url) = none
fields (text line) = none

-- The value of a name, if it is a field.
unfoldable pub lookup : Text → List (Text × Value) → Option Value
lookup name [] = none
lookup name ((key, value) ∷ rest) =
    let later = lookup name rest in if text_eq name key then some value else later

unfoldable pub value_of : String → Body → Option Value
unfolding fields lookup
value_of name body = elim (fields body) [ none ↦ none | some l ↦ lookup (codes name) l ]
