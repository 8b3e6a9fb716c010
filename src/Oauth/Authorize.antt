-- ===== src/Oauth/Authorize.antt =====
-- What an authorization that ends with a code has checked.
use braza_sso.Prelude.{
  ◌≡◌, refl, true, ◌⊎◌, Option, some, List, [], ◌∷◌, Text, codes, text_eq_iff, ok, arith, contains,
  Result-cases, Option-cases, inl, inr,
}
use braza_sso.Model.{Uuid, Client}
use braza_sso.Env.Services.{Services}
use braza_sso.Go.Strings.{fields}
use braza_sso.Jwt.{Config}
use braza_sso.Oauth.Clients.{find_client, has_consent}
use braza_sso.Oauth.Handlers.{AuthorizeRequest, authorize, valid_redirect_uri, consented}
use braza_sso.World.{World, Response}

-- The test of a redirect address is membership, by exact comparison.
pub valid_redirect_uri_lem :
    (allowed : List Text) (uri : Text) → valid_redirect_uri allowed uri ≡ contains allowed uri
unfolding valid_redirect_uri contains
valid_redirect_uri_lem [] uri = refl
valid_redirect_uri_lem (a ∷ allowed) uri =
    ground (arith, valid_redirect_uri_lem allowed uri, text_eq_iff a uri, text_eq_iff uri a)

module _ (S : Services) (c : Config) where
  -- The state after the client was looked up.
  abbrev pub looked_up : AuthorizeRequest → World S → World S
  looked_up q w = (find_client S q.client_id w).1

  -- An authorization succeeds with a code only for the response type `code`, a client that is
  -- registered with exactly that redirect address, a user who is signed in and has consented to the
  -- requested scopes, and either no challenge or one for S256.
  pub authorize_ok :
      (q : AuthorizeRequest) (context : Option Text) (w : World S) {r : Response}
      → (authorize S c q context w).0 ≡ ok r
      → (q.response_type ≡ codes "code")
        × ((q.code_challenge ≡ []) ⊎ (q.code_challenge_method ≡ codes "S256"))
        × ((client : Client) × ((find_client S q.client_id w).0 ≡ ok client)
            × (contains client.redirect_uris q.redirect_uri ≡ true))
        × ((text : Text) × (id : Uuid) × (context ≡ some text)
            × (S.uuid_parse text ≡ some id)
            × ((has_consent S id q.client_id (fields q.scope) (looked_up q w)).0 ≡ ok true))
  unfolding authorize consented
  authorize_ok q context w h =
      let w1 = looked_up q w in
      elim (Result-cases (find_client S q.client_id w).0) [
        | inr (e, none_such) ↦ absurd (ground arith)
        | inl (client, found) ↦ elim (Option-cases context) [
          | inl away ↦ absurd (ground arith)
          | inr (text, here) ↦ elim (Option-cases (S.uuid_parse text)) [
            | inl bad ↦ absurd (ground arith)
            | inr (id, parsed) ↦ (
              ground (arith, text_eq_iff q.response_type (codes "code")),
              ground (
                arith,
                text_eq_iff q.code_challenge [],
                text_eq_iff q.code_challenge_method (codes "S256"),
              ),
              (
                client,
                found,
                ground (arith, valid_redirect_uri_lem client.redirect_uris q.redirect_uri),
              ),
              (text, id, here, parsed, ground arith),
            )
          ]
        ]
      ]
