-- ===== src/Oauth/Handlers.antt =====
-- internal/oauth/handlers.go: authorization, consent, the token endpoint and userinfo.
use braza_sso.Prelude.{
  ℕ, Bool, true, false, not, ◌&&◌, ◌||◌, Option, none, some, List, [], ◌∷◌, ◌++◌, Text, codes,
  text_eq, String, if◌then◌else◌, Result, ok, stop, pure, leave, stop_if, or_stop, or_else, attempt,
  M, choose, on_result, ◌>>=◌, ◌>>◌,
}
use braza_sso.Model.{Uuid, AuthCodeMeta}
use braza_sso.Env.Services.{Services}
use braza_sso.Go.Base64
use braza_sso.Go.Strings.{fields}
use braza_sso.Http.{respond, http_error, write_error, write_header, redirect_to}
use braza_sso.Jwt.{Config, issue_access_token}
use braza_sso.Oauth.Clients.{find_client, has_consent, store_consent}
use braza_sso.Password.{verify_password}
use braza_sso.TokenStore.{set_key, get_del, random_token}
use braza_sso.User.{find_by_id}
use braza_sso.World.{
  World, Json, string, strings, Error, Response, Handler, Call, token_response, userinfo,
}

abbrev pub auth_code_ttl : ℕ
auth_code_ttl = 60

unfoldable pub auth_code_key : Text → Text
auth_code_key code = codes "oauth_code:" ++ code

-- A panic in a handler, such as a read through the nil URL that a failed parse leaves: chi's
-- `Recoverer` answers 500.
abbrev pub panicked : Response
panicked = write_header 500

-- `oauthError`
abbrev pub oauth_error : String → ℕ → Response
oauth_error code status = write_error status code

pub record AuthorizeRequest : Type 0 where
  pub raw_query : Text
  pub client_id : Text
  pub redirect_uri : Text
  pub response_type : Text
  pub scope : Text
  pub state : Text
  pub code_challenge : Text
  pub code_challenge_method : Text

-- The form of POST /oauth/consent.
pub record ConsentForm : Type 0 where
  pub client_id : Text
  pub redirect_uri : Text
  pub scope : Text
  pub state : Text
  pub code_challenge : Text

-- The form of POST /oauth/token.
pub record TokenForm : Type 0 where
  pub grant_type : Text
  pub code : Text
  pub redirect_uri : Text
  pub client_id : Text
  pub code_verifier : Text
  pub client_secret : Text

unfoldable pub valid_redirect_uri : List Text → Text → Bool
valid_redirect_uri [] uri = false
valid_redirect_uri (a ∷ allowed) uri =
    if text_eq a uri then true else valid_redirect_uri allowed uri

-- `q.Set("code", …)`, and the state if there is one.
abbrev pub code_and_state : Text → Text → List (Text × Text)
code_and_state code [] = (codes "code", code) ∷ []
code_and_state code (b ∷ state) = (codes "code", code) ∷ (codes "state", b ∷ state) ∷ []

module _ (S : Services) (c : Config) where
  unfoldable pub verify_pkce : Text → Text → Bool
  verify_pkce verifier challenge = text_eq (Base64.encode Base64.url (S.sha256 verifier)) challenge

  abbrev random_code : {E : Type 0} → M (World S) E Text
  random_code = random_token S 24

  unfoldable pub issue_auth_code : AuthCodeMeta → Call S Text
  issue_auth_code meta = do
    code ← random_code
    set_key S (auth_code_key code) (S.marshal_meta meta) auth_code_ttl
    pure code

  -- The redirect with the code, which ends `Authorize` and `Consent`.
  unfoldable pub redirect_with_code : Text → Text → AuthCodeMeta → Handler S Response
  redirect_with_code redirect_uri state meta = do
    code ← or_else (issue_auth_code meta) (http_error 500 "server_error")
    url ← or_stop (S.with_query redirect_uri (code_and_state code state)) panicked
    pure (redirect_to url)

  unfoldable pub login_url : Text → Text
  login_url raw_query =
      c.frontend_url
      ++ (codes "/login?next=" ++ S.query_escape (codes "/oauth/authorize?" ++ raw_query))

  unfoldable pub consent_url : Text → Text
  consent_url raw_query = c.frontend_url ++ (codes "/consent?" ++ raw_query)

  -- `hasConsent, _ :=`: an error counts as no consent.
  unfoldable pub consented : Result Error Bool → Bool
  consented (ok b) = b
  consented (stop _) = false

  -- The second argument is the user of the context.
  unfoldable pub authorize : AuthorizeRequest → Option Text → Handler S Response
  authorize q context = do
    stop_if (not (text_eq q.response_type (codes "code")))
        (http_error 400 "unsupported_response_type")
    client ← or_else (find_client S q.client_id) (http_error 400 "invalid_client")
    stop_if (not (valid_redirect_uri client.redirect_uris q.redirect_uri))
        (http_error 400 "invalid_redirect_uri")
    user_id_text ← or_stop context (redirect_to (login_url q.raw_query))
    user_id ← or_stop (S.uuid_parse user_id_text) (http_error 500 "invalid_session")
    answer ← attempt (has_consent S user_id q.client_id (fields q.scope))
    stop_if (not (consented answer)) (redirect_to (consent_url q.raw_query))
    stop_if
        (not (text_eq q.code_challenge []) && not (text_eq q.code_challenge_method (codes "S256")))
        (http_error 400 "invalid_request: only S256 code_challenge_method is supported")
    redirect_with_code q.redirect_uri q.state (record {
      user_id = user_id_text;
      client_id = q.client_id;
      redirect_uri = q.redirect_uri;
      scopes = fields q.scope;
      code_challenge = q.code_challenge;
    })

  -- `userID, _ := uuid.Parse(…)`: the zero UUID if the text is none.
  abbrev parsed_or_zero : Option Uuid → Uuid
  parsed_or_zero none = 0
  parsed_or_zero (some id) = id

  -- The form, if it could be parsed, and the user of the context.
  unfoldable pub consent : Option ConsentForm → Option Text → Handler S Response
  consent body context = do
    form ← or_stop body (http_error 400 "invalid_request")
    user_id_text ← or_stop context (http_error 401 "unauthorized")
    or_else
        (store_consent S (parsed_or_zero (S.uuid_parse user_id_text)) form.client_id
          (fields form.scope))
        (http_error 500 "server_error")
    redirect_with_code form.redirect_uri form.state (record {
      user_id = user_id_text;
      client_id = form.client_id;
      redirect_uri = form.redirect_uri;
      scopes = fields form.scope;
      code_challenge = form.code_challenge;
    })

  -- The checks of a code's record against the form, PKCE included.
  unfoldable pub grant_fits : AuthCodeMeta → TokenForm → Bool
  grant_fits meta form =
      if not (text_eq meta.client_id form.client_id)
        || not (text_eq meta.redirect_uri form.redirect_uri)
      then false
      else if text_eq meta.code_challenge []
      then true
      else if text_eq form.code_verifier []
      then false
      else verify_pkce form.code_verifier meta.code_challenge

  abbrev pub ok_or_empty : Result Error Text → Text
  ok_or_empty (ok token) = token
  ok_or_empty (stop _) = []

  unfoldable pub handle_auth_code : TokenForm → Handler S Response
  handle_auth_code form = do
    val ← or_else (get_del S (auth_code_key form.code)) (oauth_error "invalid_grant" 400)
    meta ← or_stop (S.unmarshal_meta val) (oauth_error "server_error" 500)
    stop_if (not (grant_fits meta form)) (oauth_error "invalid_grant" 400)
    user_id ← or_stop (S.uuid_parse meta.user_id) panicked
    u ← or_else (find_by_id S user_id) (oauth_error "invalid_grant" 400)
    access_token ←
        or_else (issue_access_token S c (S.uuid_text u.id) u.email u.email_verified form.client_id)
          (oauth_error "server_error" 500)
    id_token ←
        attempt (issue_access_token S c (S.uuid_text u.id) u.email u.email_verified form.client_id)
    pure (respond 200 (token_response access_token (ok_or_empty id_token)))

  unfoldable pub handle_client_credentials : TokenForm → Handler S Response
  handle_client_credentials form = do
    client ← or_else (find_client S form.client_id) (oauth_error "invalid_client" 401)
    on_result (verify_password S form.client_secret [] client.secret_hash)
        (λ _. do
          access_token ←
              or_else (issue_access_token S c form.client_id [] false c.issuer)
                (oauth_error "server_error" 500)
          pure (respond 200 (token_response access_token [])))
        (λ _. leave (oauth_error "invalid_client" 401))

  unfoldable pub token : Option TokenForm → Handler S Response
  token body = do
    form ← or_stop body (oauth_error "invalid_request" 400)
    choose (text_eq form.grant_type (codes "authorization_code")) (handle_auth_code form) (
        choose (text_eq form.grant_type (codes "client_credentials"))
          (handle_client_credentials form) (leave (oauth_error "unsupported_grant_type" 400)))

  unfoldable pub user_info : Option Text → Handler S Response
  user_info context = do
    user_id_text ← or_stop context (http_error 401 "{\"error\":\"unauthorized\"}")
    u ←
        or_else (find_by_id S (parsed_or_zero (S.uuid_parse user_id_text)))
          (http_error 404 "{\"error\":\"user_not_found\"}")
    pure (respond 200 (userinfo (S.uuid_text u.id) u.email u.email_verified))

  -- `Discovery`
  unfoldable pub discovery : List (Text × Json)
  discovery =
      (codes "issuer", string c.issuer)
      ∷ (codes "authorization_endpoint", string (c.frontend_url ++ codes "/oauth/authorize"))
      ∷ (codes "token_endpoint", string (c.frontend_url ++ codes "/oauth/token"))
      ∷ (codes "userinfo_endpoint", string (c.frontend_url ++ codes "/oauth/userinfo"))
      ∷ (codes "jwks_uri", string (c.frontend_url ++ codes "/oauth/jwks.json"))
      ∷ (codes "response_types_supported", strings (codes "code" ∷ []))
      ∷ (codes "subject_types_supported", strings (codes "public" ∷ []))
      ∷ (codes "id_token_signing_alg_values_supported", strings (codes "RS256" ∷ []))
      ∷ (codes "scopes_supported", strings (codes "openid" ∷ codes "email" ∷ codes "profile" ∷ []))
      ∷ (codes "token_endpoint_auth_methods_supported", strings (codes "client_secret_post" ∷ []))
      ∷ (
        codes "claims_supported",
        strings (
            codes "sub"
            ∷ codes "email"
            ∷ codes "email_verified"
            ∷ codes "iss"
            ∷ codes "aud"
            ∷ codes "exp"
            ∷ codes "iat"
            ∷ []),
      )
      ∷ (codes "code_challenge_methods_supported", strings (codes "S256" ∷ []))
      ∷ []
