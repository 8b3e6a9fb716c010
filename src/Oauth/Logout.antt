-- ===== src/Oauth/Logout.antt =====
-- internal/oauth/backchannel.go: the logout token goes to every relying party with a consent.
use braza_sso.Prelude.{
  ℕ, leb, if◌then◌else◌, Option, none, some, codes, List, [], ◌∷◌, Text, M, pure, or_stop, ◌>>=◌,
  ◌>>◌,
}
use braza_sso.Model.{Client}
use braza_sso.Env.Services.{Services}
use braza_sso.Oauth.Clients.{find_clients, list_consented_client_ids}
use braza_sso.World.{World, failure, Call, post}

-- What `postLogoutToken` logs.
pub data Warning : Type 0 where
  marshal_failed post_failed : Warning
  returned_error : ℕ → Warning

-- The post to one relying party, over `json.Marshal` of the token under `logout_token` and the
-- status that `http.Client.Post` gives for an address, a content type and a body.
unfoldable pub post_logout_token :
    (Text → Option Text) → (Text → Text → Text → Option ℕ) → Text → Text → Option Warning
post_logout_token marshal http_post uri logout_token = elim (marshal logout_token) [
  | none ↦ some marshal_failed
  | some body ↦ elim (http_post uri (codes "application/json") body) [
    | none ↦ some post_failed
    | some status ↦ if leb 400 status then some (returned_error status) else none
  ]
]

module _ (S : Services) where
  unfoldable pub post_to : {E : Type 0} → Text → Text → M (World S) E (Unit {0})
  unfolding post
  post_to [] token = pure tt
  post_to (b ∷ uri) token = post S (b ∷ uri) token

  unfoldable pub post_all : {E : Type 0} → Text → List Client → M (World S) E (Unit {0})
  unfolding post_to
  post_all token [] = pure tt
  post_all token (client ∷ clients) = do
    post_to client.back_channel_logout_uri token
    post_all token clients

  unfoldable pub notify_logout : Text → Text → Call S (Unit {0})
  unfolding list_consented_client_ids find_clients post_all
  notify_logout user_id_text logout_token = do
    user_id ← or_stop (S.uuid_parse user_id_text) failure
    client_ids ← list_consented_client_ids S user_id
    clients ← find_clients S client_ids
    post_all logout_token clients
