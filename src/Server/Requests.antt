-- ===== src/Server/Requests.antt =====
-- A request as the handlers read it.
use braza_sso.Prelude.{Option, none, some, List, [], ◌∷◌, Text, codes, String}
use braza_sso.Login.{LoginRequest}
use braza_sso.Oauth.Handlers.{AuthorizeRequest, ConsentForm, TokenForm}
use braza_sso.PasswordReset.{ResetBody}
use braza_sso.Register.{RegisterRequest}
use braza_sso.Totp.{VerifyRequest}

-- `remote_addr` is what chi's RealIP leaves. A header, a query or a form that lacks a name gives
-- the empty text for it, as in Go. `json` is the body decoded into a struct with the given string
-- fields, `form` the parsed form; either may fail.
pub record Request : Type 0 where
  pub method : Text
  pub path : Text
  pub remote_addr : Text
  pub x_real_ip : Text
  pub authorization : Text
  pub session_cookie : Option Text
  pub refresh_cookie : Option Text
  pub raw_query : Text
  pub query : Text → Text
  pub form : Option (Text → Text)
  pub json : List Text → Option (Text → Text)

-- A record made of the fields, if they could be read.
abbrev read : {A : Type 0} → Option (Text → Text) → ((String → Text) → A) → Option A
read none make = none
read (some fields) make = some (make (λ name. fields (codes name)))

unfoldable pub login_request : Request → Option LoginRequest
login_request req =
    read (req.json (codes "email" ∷ codes "password" ∷ []))
      λ f. record { email = f "email"; password = f "password" }

unfoldable pub register_request : Request → Option RegisterRequest
register_request req =
    read (req.json (codes "email" ∷ codes "password" ∷ []))
      λ f. record { email = f "email"; password = f "password" }

unfoldable pub email_of : Request → Option Text
email_of req = read (req.json (codes "email" ∷ [])) (λ f. f "email")

unfoldable pub reset_body : Request → Option ResetBody
reset_body req =
    read (req.json (codes "token" ∷ codes "password" ∷ []))
      λ f. record { token = f "token"; password = f "password" }

unfoldable pub code_of : Request → Option Text
code_of req = read (req.json (codes "code" ∷ [])) (λ f. f "code")

unfoldable pub verify_request : Request → Option VerifyRequest
verify_request req =
    read (req.json (codes "mfa_session_id" ∷ codes "code" ∷ []))
      λ f. record { mfa_session_id = f "mfa_session_id"; code = f "code" }

unfoldable pub recovery_request : Request → Option VerifyRequest
recovery_request req =
    read (req.json (codes "mfa_session_id" ∷ codes "recovery_code" ∷ []))
      λ f. record { mfa_session_id = f "mfa_session_id"; code = f "recovery_code" }

unfoldable pub logout_token_of : Request → Option Text
logout_token_of req = read (req.json (codes "logout_token" ∷ [])) (λ f. f "logout_token")

unfoldable pub authorize_request : Request → AuthorizeRequest
authorize_request req = record {
  raw_query = req.raw_query;
  client_id = req.query (codes "client_id");
  redirect_uri = req.query (codes "redirect_uri");
  response_type = req.query (codes "response_type");
  scope = req.query (codes "scope");
  state = req.query (codes "state");
  code_challenge = req.query (codes "code_challenge");
  code_challenge_method = req.query (codes "code_challenge_method");
}

unfoldable pub consent_form : Request → Option ConsentForm
consent_form req = read req.form λ f. record {
  client_id = f "client_id";
  redirect_uri = f "redirect_uri";
  scope = f "scope";
  state = f "state";
  code_challenge = f "code_challenge";
}

unfoldable pub token_form : Request → Option TokenForm
token_form req = read req.form λ f. record {
  grant_type = f "grant_type";
  code = f "code";
  redirect_uri = f "redirect_uri";
  client_id = f "client_id";
  code_verifier = f "code_verifier";
  client_secret = f "client_secret";
}
