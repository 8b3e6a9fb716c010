-- ===== src/World.antt =====
-- The state that a request works on: the databases, the number of calls made so far, the mails
-- handed to the mailer, and the cookies of the response being written. Every remote call of the
-- program goes through one of the calls below.
use braza_sso.Prelude.{ℕ, suc, Bool, List, [], ◌∷◌, ◌++◌, Text, Result, ok, stop, M}
use braza_sso.Model.{Uuid, Time}
use braza_sso.Env.Services.{Services, Fault, delivered, lost, late}

-- The errors that the code tells apart; `failure` is any error of a service.
pub data Error : Type 0 where
  token_not_found user_not_found email_taken client_not_found : Error
  invalid_hash hash_mismatch : Error
  failure : Error

-- A message handed to the mailer, by method of `email.Sender`, with its address and link.
pub data Mail : Type 0 where
  verification password_reset account_locked : Text → Text → Mail

pub data Cookie : Type 0 where
  set_refresh set_session : Text → Cookie
  clear_refresh clear_session : Cookie

-- A string or a list of strings, as a field of a JSON object.
pub data Json : Type 0 where
  string : Text → Json
  strings : List Text → Json

-- A response: the status and the body, a JSON document or a plain text.
pub data Body : Type 0 where
  empty : Body
  -- `{"error": …}` and `{"message": …}`
  error_body message_body : Text → Body
  -- `http.Error`
  plain_error : Text → Body
  weak_password : List Text → Body
  -- `loginResponse`, and `tokenResponse` with its ID token
  login_response : Text → Body
  token_response : Text → Text → Body
  mfa_required : Text → Body
  enrolled : Text → Text → List Text → Body
  recovered : Text → Body
  too_many_requests : ℕ → Body
  userinfo : Text → Text → Bool → Body
  redirect : Text → Body
  -- A JSON object of strings and lists of strings, and a list of keys under `keys`
  document : List (Text × Json) → Body
  key_set : List (Text × Text) → Body
  -- The text of /healthz
  text : Text → Body

pub record Response : Type 0 where
  pub status : ℕ
  pub body : Body

pub record World (S : Services) : Type 0 where
  pub redis : S.redis.Db
  pub users : S.users.Db
  pub users_by_email : S.users_by_email.Db
  pub clients : S.clients.Db
  pub consents : S.consents.Db
  pub recovery_codes : S.recovery_codes.Db
  pub identities : S.identities.Db
  pub tick : ℕ
  -- The logout tokens posted to relying parties, by address.
  pub posts : List (Text × Text)
  pub mails : List Mail
  pub cookies : List Cookie

-- What the caller gets and what the server has done, by the fate of the call.
unfoldable pub deliver : {A D : Type 0} → Fault → D → Result Error A × D → Result Error A × D
deliver delivered d r = r
deliver lost d r = (stop failure, d)
deliver late d r = (stop failure, r.1)

module _ (S : Services) where
  abbrev pub Call : Type 0 → Type 0
  Call A = M (World S) Error A

  abbrev pub Handler : Type 0 → Type 0
  Handler A = M (World S) Response A

  -- A command, or a pipeline sent as one, to Redis: `f` is what the server does at the time given.
  unfoldable pub redis_call : {A : Type 0} → (ℕ → S.redis.Db → Result Error A × S.redis.Db) → Call A
  redis_call f w =
      let (r, d) = deliver (S.fault w.tick) w.redis (f (S.clock w.tick) w.redis) in
      (r, record w { redis = d; tick = suc w.tick })

  unfoldable pub users_call : {A : Type 0} → (ℕ → S.users.Db → Result Error A × S.users.Db) → Call A
  users_call f w =
      let (r, d) = deliver (S.fault w.tick) w.users (f (S.clock w.tick) w.users) in
      (r, record w { users = d; tick = suc w.tick })

  unfoldable pub users_by_email_call :
      {A : Type 0} → (S.users_by_email.Db → Result Error A × S.users_by_email.Db) → Call A
  users_by_email_call f w =
      let (r, d) = deliver (S.fault w.tick) w.users_by_email (f w.users_by_email) in
      (r, record w { users_by_email = d; tick = suc w.tick })

  unfoldable pub clients_call :
      {A : Type 0} → (S.clients.Db → Result Error A × S.clients.Db) → Call A
  clients_call f w =
      let (r, d) = deliver (S.fault w.tick) w.clients (f w.clients) in
      (r, record w { clients = d; tick = suc w.tick })

  unfoldable pub consents_call :
      {A : Type 0} → (S.consents.Db → Result Error A × S.consents.Db) → Call A
  consents_call f w =
      let (r, d) = deliver (S.fault w.tick) w.consents (f w.consents) in
      (r, record w { consents = d; tick = suc w.tick })

  unfoldable pub recovery_codes_call :
      {A : Type 0} → (S.recovery_codes.Db → Result Error A × S.recovery_codes.Db) → Call A
  recovery_codes_call f w =
      let (r, d) = deliver (S.fault w.tick) w.recovery_codes (f w.recovery_codes) in
      (r, record w { recovery_codes = d; tick = suc w.tick })

  unfoldable pub identities_call :
      {A : Type 0} → (ℕ → S.identities.Db → Result Error A × S.identities.Db) → Call A
  identities_call f w =
      let (r, d) = deliver (S.fault w.tick) w.identities (f (S.clock w.tick) w.identities) in
      (r, record w { identities = d; tick = suc w.tick })

  -- `time.Now()`, `n` random bytes and `uuid.New()`: each draw has a tick of its own.
  unfoldable pub now : {E : Type 0} → M (World S) E Time
  now w = (ok (S.clock w.tick), record w { tick = suc w.tick })

  unfoldable pub random_bytes : {E : Type 0} → ℕ → M (World S) E Text
  random_bytes n w = (ok (S.random w.tick n), record w { tick = suc w.tick })

  unfoldable pub new_uuid : {E : Type 0} → M (World S) E Uuid
  new_uuid w = (ok (S.new_uuid w.tick), record w { tick = suc w.tick })

  -- `go func() { mailer.Send… }()`: the result is only logged.
  unfoldable pub send_mail : {E : Type 0} → Mail → M (World S) E (Unit {0})
  send_mail m w = (ok tt, record w { mails = w.mails ++ (m ∷ []) })

  -- `go s.postLogoutToken(…)`: the answer is only logged.
  unfoldable pub post : {E : Type 0} → Text → Text → M (World S) E (Unit {0})
  post uri token w = (ok tt, record w { posts = w.posts ++ ((uri, token) ∷ []) })

  -- `http.SetCookie`
  unfoldable pub set_cookie : {E : Type 0} → Cookie → M (World S) E (Unit {0})
  set_cookie c w = (ok tt, record w { cookies = w.cookies ++ (c ∷ []) })
