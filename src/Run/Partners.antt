-- ===== src/Run/Partners.antt =====
-- The handlers of logout.go, federation.go and internal/oauth, and the middleware, as runs.
use braza_sso.Prelude.{ℕ, Option, none, some, List, [], ◌∷◌, Text, Result, arith}
use braza_sso.Env.Services.{Services}
use braza_sso.Federation
use braza_sso.Jwt.{Config}
use braza_sso.Logout
use braza_sso.Model.{Uuid, User, Client, IdClaims, AuthCodeMeta}
use braza_sso.Oauth.Clients
use braza_sso.Oauth.Handlers
use braza_sso.Oauth.Logout.{notify_logout, post_all, post_to}
use braza_sso.Run.{Runs, of_code}
use braza_sso.Run.Keys.{auth_code_key-IsApart}
use braza_sso.Run.Account.{enlist-Runs}
use braza_sso.Run.Calls.{calls, calm}
use braza_sso.World.{Response, Error, now, identities_call}

module _ (S : Services) (n : ℕ) where
  create_client-Runs : (client : Client) → Runs S n (Clients.create_client S client)
  unfolding Clients.create_client
  create_client-Runs client = calm S n _ (λ w. ground arith)

  find_client-Runs : (id : Text) → Runs S n (Clients.find_client S id)
  unfolding Clients.find_client
  find_client-Runs id = calm S n _ (λ w. ground arith)

  find_clients-Runs : (E : Type 0) (ids : List Text) → Runs S n (Clients.find_clients S {E = E} ids)
  unfolding Clients.find_clients
  find_clients-Runs E [] = search calls
  find_clients-Runs E (id ∷ ids) =
      search (calls, find_client-Runs, find_clients-Runs E ids) depth 20 fits 3000

  has_consent-Runs :
      (id : Uuid) (client_id : Text) (scopes : List Text)
      → Runs S n (Clients.has_consent S id client_id scopes)
  unfolding Clients.has_consent
  has_consent-Runs id client_id scopes = calm S n _ (λ w. ground arith)

  store_consent-Runs :
      (id : Uuid) (client_id : Text) (scopes : List Text)
      → Runs S n (Clients.store_consent S id client_id scopes)
  unfolding Clients.store_consent
  store_consent-Runs id client_id scopes = calm S n _ (λ w. ground arith)

  list_consented_client_ids-Runs : (id : Uuid) → Runs S n (Clients.list_consented_client_ids S id)
  unfolding Clients.list_consented_client_ids
  list_consented_client_ids-Runs id = calm S n _ (λ w. ground arith)

  post_to-Runs : (E : Type 0) (uri token : Text) → Runs S n (post_to S {E = E} uri token)
  unfolding post_to
  post_to-Runs E [] token = search calls
  post_to-Runs E (b ∷ uri) token = search calls

  post_all-Runs :
      (E : Type 0) (token : Text) (l : List Client) → Runs S n (post_all S {E = E} token l)
  unfolding post_all
  post_all-Runs E token [] = search calls
  post_all-Runs E token (client ∷ l) =
      search (calls, post_to-Runs, post_all-Runs E token l) depth 20 fits 3000

  notify_logout-Runs : (uid token : Text) → Runs S n (notify_logout S uid token)
  unfolding notify_logout
  notify_logout-Runs uid token =
      search (calls, list_consented_client_ids-Runs, find_clients-Runs, post_all-Runs) depth 20 fits
        3000

  ask-Runs :
      (c : Config) {A : Type 0} (f : ℕ → Option A) (r : Response)
      → Runs S n (Federation.ask S c f r)
  unfolding Federation.ask
  ask-Runs c f r = calm S n _ (λ w. ground arith)

  upsert_identity-Runs :
      (c : Config) (id : Uuid) (provider sub email : Text)
      → Runs S n (Federation.upsert_identity S c id provider sub email)
  unfolding Federation.upsert_identity now identities_call
  upsert_identity-Runs c id provider sub email = calm S n _ (λ w. ground arith)

  module _ (c : Config) where
    refetch-Runs : (u : User) (e : Error) → Runs S n (Federation.refetch S c u e)
    unfolding Federation.refetch
    refetch-Runs u e = search calls

    after_create-Runs :
        (u : User) (e : Error) (r : Result Error (Unit {0}))
        → Runs S n (Federation.after_create S c u e r)
    unfolding Federation.after_create
    after_create-Runs u e r = search (calls, refetch-Runs) depth 20 fits 3000

    find_or_create_user-Runs :
        (claims : IdClaims) → Runs S n (Federation.find_or_create_user S c claims)
    unfolding Federation.find_or_create_user
    find_or_create_user-Runs claims =
        search (calls, enlist-Runs, after_create-Runs) depth 20 fits 3000

    pub google_redirect-Runs : (to : Text) → Runs S n (Federation.google_redirect S c to)
    unfolding Federation.google_redirect
    google_redirect-Runs to = search calls depth 20 fits 3000

    pub google_callback-Runs :
        (state code : Text) → Runs S n (Federation.google_callback S c state code)
    unfolding Federation.google_callback
    google_callback-Runs state code =
        search (calls, ask-Runs, find_or_create_user-Runs, upsert_identity-Runs) depth 40 fits 3000

    issue_auth_code-Runs : (meta : AuthCodeMeta) → Runs S n (Handlers.issue_auth_code S c meta)
    unfolding Handlers.issue_auth_code
    issue_auth_code-Runs meta = search (calls, of_code) depth 20 fits 3000

    redirect_with_code-Runs :
        (uri state : Text) (meta : AuthCodeMeta)
        → Runs S n (Handlers.redirect_with_code S c uri state meta)
    unfolding Handlers.redirect_with_code
    redirect_with_code-Runs uri state meta = search (calls, issue_auth_code-Runs) depth 20 fits 3000

    pub authorize-Runs :
        (q : Handlers.AuthorizeRequest) (context : Option Text)
        → Runs S n (Handlers.authorize S c q context)
    unfolding Handlers.authorize
    authorize-Runs q context =
        search (calls, find_client-Runs, has_consent-Runs, redirect_with_code-Runs) depth 40 fits
          3000

    pub consent-Runs :
        (form : Option Handlers.ConsentForm) (context : Option Text)
        → Runs S n (Handlers.consent S c form context)
    unfolding Handlers.consent
    consent-Runs form context =
        search (calls, store_consent-Runs, redirect_with_code-Runs) depth 40 fits 3000

    pub handle_auth_code-Runs :
        (form : Handlers.TokenForm) → Runs S n (Handlers.handle_auth_code S c form)
    unfolding Handlers.handle_auth_code
    handle_auth_code-Runs form = search (calls, auth_code_key-IsApart) depth 40 fits 3000

    handle_client_credentials-Runs :
        (form : Handlers.TokenForm) → Runs S n (Handlers.handle_client_credentials S c form)
    unfolding Handlers.handle_client_credentials
    handle_client_credentials-Runs form = search (calls, find_client-Runs) depth 20 fits 3000

    pub token-Runs : (form : Option Handlers.TokenForm) → Runs S n (Handlers.token S c form)
    unfolding Handlers.token
    token-Runs form =
        search (calls, handle_auth_code-Runs, handle_client_credentials-Runs) depth 20 fits 3000

    pub user_info-Runs : (context : Option Text) → Runs S n (Handlers.user_info S c context)
    unfolding Handlers.user_info
    user_info-Runs context = search calls depth 20 fits 3000

    back_channel_logout-Runs :
        (E : Type 0) (uid : Text) → Runs S n (Logout.back_channel_logout S c {E = E} uid)
    unfolding Logout.back_channel_logout
    back_channel_logout-Runs E uid = search (calls, notify_logout-Runs) depth 20 fits 3000

    end_refresh-Runs : (E : Type 0) (o : Option Text) → Runs S n (Logout.end_refresh S c {E = E} o)
    unfolding Logout.end_refresh
    end_refresh-Runs E none = search calls
    end_refresh-Runs E (some token) = search (calls, back_channel_logout-Runs) depth 20 fits 3000

    end_session-Runs : (E : Type 0) (o : Option Text) → Runs S n (Logout.end_session S c {E = E} o)
    unfolding Logout.end_session
    end_session-Runs E none = search calls
    end_session-Runs E (some token) = search calls depth 20 fits 3000

    pub logout-Runs :
        (refresh_cookie session_cookie : Option Text)
        → Runs S n (Logout.logout S c refresh_cookie session_cookie)
    unfolding Logout.logout
    logout-Runs refresh_cookie session_cookie =
        search (calls, end_refresh-Runs, end_session-Runs) depth 30 fits 3000

    pub revoke_all-Runs : (context : Option Text) → Runs S n (Logout.revoke_all S c context)
    unfolding Logout.revoke_all
    revoke_all-Runs context = search calls depth 20 fits 3000
