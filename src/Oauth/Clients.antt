-- ===== src/Oauth/Clients.antt =====
-- internal/oauth/client.go: the table of clients and the consents of the users.
use braza_sso.Prelude.{
  Bool, true, false, Option, none, some, List, [], ◌∷◌, map, Text, text_eq, contains, ok, stop, M,
  pure, attempt, on_result, if◌then◌else◌, ◌>>=◌, ◌>>◌,
}
use braza_sso.Model.{Uuid, Client, Consent}
use braza_sso.Env.Services.{Services}
use braza_sso.World.{World, client_not_found, Call, clients_call, consents_call, now}

abbrev pub rows : Option (List Consent) → List Consent
rows none = []
rows (some consents) = consents

-- The scopes granted to a client, from the first row of the partition with its id.
unfoldable pub granted : Text → List Consent → Option (List Text)
granted client_id [] = none
granted client_id (row ∷ rest) =
    if text_eq row.client_id client_id then some row.scopes else granted client_id rest

-- INSERT of a row whose key may be there already.
unfoldable pub put_consent : Text → List Text → List Consent → List Consent
put_consent client_id scopes [] = record { client_id = client_id; scopes = scopes } ∷ []
put_consent client_id scopes (row ∷ rest) =
    if text_eq row.client_id client_id
    then record row { scopes = scopes } ∷ rest
    else row ∷ put_consent client_id scopes rest

-- The loop over the requested scopes.
unfoldable pub covers : List Text → List Text → Bool
unfolding contains
covers granted_scopes [] = true
covers granted_scopes (s ∷ scopes) =
    if contains granted_scopes s then covers granted_scopes scopes else false

module _ (S : Services) where
  unfoldable pub create_client : Client → Call S (Unit {0})
  unfolding clients_call
  create_client client = clients_call S (λ d. (ok tt, S.clients.upsert client.id (λ _. client) d))

  unfoldable pub find_client : Text → Call S Client
  unfolding clients_call
  find_client client_id = clients_call S λ d. elim (S.clients.row d client_id) [
    | none ↦ (stop client_not_found, d)
    | some client ↦ (ok client, d)
  ]

  -- Clients that cannot be read are skipped.
  unfoldable pub find_clients : {E : Type 0} → List Text → M (World S) E (List Client)
  unfolding find_client
  find_clients [] = pure []
  find_clients (id ∷ ids) = do
    found ← attempt (find_client id)
    rest ← find_clients ids
    on_result found (λ client. pure (client ∷ rest)) (λ _. pure rest)

  unfoldable pub has_consent : Uuid → Text → List Text → Call S Bool
  unfolding consents_call granted covers
  has_consent user_id client_id scopes = consents_call S λ d.
      elim (granted client_id (rows (S.consents.row d user_id))) [
        | none ↦ (ok false, d)
        | some granted_scopes ↦ (ok (covers granted_scopes scopes), d)
      ]

  unfoldable pub store_consent : Uuid → Text → List Text → Call S (Unit {0})
  unfolding now consents_call put_consent
  store_consent user_id client_id scopes = do
    now S
    consents_call S
        (λ d. (ok tt, S.consents.upsert user_id (λ r. put_consent client_id scopes (rows r)) d))

  unfoldable pub list_consented_client_ids : Uuid → Call S (List Text)
  unfolding consents_call
  list_consented_client_ids user_id =
      consents_call S (λ d. (ok (map (λ c. c.client_id) (rows (S.consents.row d user_id))), d))
