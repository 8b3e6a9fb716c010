-- ===== src/Tests/Clients.antt =====
-- The theorems on OAuth clients, applied.
use braza_sso.Prelude.{
  ℕ, suc, Text, codes, none, some, Option, List, [], ◌∷◌, ◌++◌, ◌⊎◌, ◌↔◌, inl, inr, ok, stop, refl,
  ◌≡◌, ◌≢◌, ◌≤◌, ◌<◌, true, false, Bool, arith, if◌then◌else◌, contains, Result,
}
use braza_sso.Go.Base64
use braza_sso.Go.Strings
use braza_sso.Http.{redirect_to}
use braza_sso.Model.{AuthCodeMeta, Client}
use braza_sso.Oauth.Authorize
use braza_sso.Oauth.Clients
use braza_sso.Oauth.Consents
use braza_sso.Oauth.Exchange
use braza_sso.Oauth.Grant
use braza_sso.Oauth.Handlers
use braza_sso.TokenStore
use braza_sso.Tests.{alice, services, laws, config, with_alice, start}
use braza_sso.World.{World, Response, token_response}

abbrev form : Handlers.TokenForm
form = record {
  grant_type = codes "authorization_code";
  code = codes "k";
  redirect_uri = codes "https://app/cb";
  client_id = codes "app";
  code_verifier = [];
  client_secret = codes "abc";
}

abbrev meta : AuthCodeMeta
meta = record {
  user_id = 1 ∷ [];
  client_id = codes "app";
  redirect_uri = codes "https://app/cb";
  scopes = [];
  code_challenge = [];
}

abbrev with_code : World services
with_code = record with_alice {
  redis =
      (TokenStore.set_key services (Handlers.auth_code_key (codes "k")) (codes "app") 60
        start).1.redis;
}

grant_fits_iff_example : (Handlers.grant_fits services config meta form ≡ true) ↔ (
    (meta.client_id ≡ form.client_id)
    × (meta.redirect_uri ≡ form.redirect_uri)
    × ((meta.code_challenge ≡ [])
        ⊎ ((form.code_verifier ≢ [])
            × (Base64.encode Base64.url (services.sha256 form.code_verifier)
                ≡ meta.code_challenge))))
grant_fits_iff_example = Exchange.grant_fits_iff services config meta form

abbrev query : Handlers.AuthorizeRequest
query = record {
  raw_query = [];
  client_id = codes "app";
  redirect_uri = codes "https://app/cb";
  response_type = codes "code";
  scope = codes "openid";
  state = [];
  code_challenge = [];
  code_challenge_method = [];
}

authorize_ok_example :
    (query.response_type ≡ codes "code")
    × ((query.code_challenge ≡ []) ⊎ (query.code_challenge_method ≡ codes "S256"))
    × ((client : Client) × ((Clients.find_client services (codes "app") with_alice).0 ≡ ok client)
        × (contains client.redirect_uris query.redirect_uri ≡ true))
    × ((text : Text) × (id : ℕ) × (some (5 ∷ []) ≡ some text)
        × (services.uuid_parse text ≡ some id)
        × ((Clients.has_consent services id
              (codes "app")
              (Strings.fields query.scope)
              (Authorize.looked_up services config query with_alice)).0
            ≡ ok true))
unfolding Handlers.authorize braza_sso.Prelude.text_eq Clients.find_client braza_sso.World.deliver
    Handlers.valid_redirect_uri Handlers.consented Clients.has_consent Strings.fields
    Handlers.redirect_with_code Handlers.issue_auth_code braza_sso.World.random_bytes
    TokenStore.set_key TokenStore.random_token
authorize_ok_example =
    Authorize.authorize_ok services config query (some (5 ∷ [])) with_alice
      {r = redirect_to (codes "https://app/cb")} refl

store_consent-has_consent_example :
    (Clients.has_consent services 5
      (codes "app")
      (codes "email" ∷ [])
      (Clients.store_consent services 5
        (codes "app")
        (codes "openid" ∷ codes "email" ∷ [])
        with_alice).1).0
    ≡ ok true
unfolding Clients.covers braza_sso.Prelude.text_eq
store_consent-has_consent_example =
    Consents.store_consent-has_consent services laws 5 (codes "app") (codes "app")
      (codes "openid" ∷ codes "email" ∷ []) (codes "email" ∷ []) with_alice refl refl refl

-- A code issued in the first state, and a form with it.
abbrev issued_form : Handlers.TokenForm
issued_form = record form { code = Base64.encode Base64.url (services.random 0 24) }

abbrev issued : World services
issued = record with_alice {
  redis = (Handlers.issue_auth_code services config meta start).1.redis;
  tick = 2;
}

issue_auth_code-handle_auth_code_example :
    (r : Response) × ((Handlers.handle_auth_code services config issued_form issued).0 ≡ ok r)
    × (r.status ≡ 200)
unfolding Handlers.issue_auth_code braza_sso.World.random_bytes TokenStore.set_key
    braza_sso.World.deliver Handlers.grant_fits braza_sso.Prelude.text_eq TokenStore.random_token
issue_auth_code-handle_auth_code_example =
    Grant.issue_auth_code-handle_auth_code services config laws (λ _. refl)
      (λ claims. claims.subject ++ claims.audience) (λ claims. refl) meta issued_form start issued 1
      alice refl refl refl (ground arith) (ground arith) refl refl refl

abbrev consent_form : Handlers.ConsentForm
consent_form = record {
  client_id = codes "app";
  redirect_uri = codes "https://elsewhere";
  scope = [];
  state = [];
  code_challenge = [];
}

consent-clients_example :
    (Handlers.consent services config
      (some consent_form)
      (some (5 ∷ []))
      (record with_alice { clients = λ id. none })).0
    ≡ (Handlers.consent services config (some consent_form) (some (5 ∷ [])) with_alice).0
consent-clients_example =
    Grant.consent-clients services config (some consent_form) (some (5 ∷ [])) with_alice
      (λ id. none)
