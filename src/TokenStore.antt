-- ===== src/TokenStore.antt =====
-- internal/auth/token_store.go: the short-lived tokens that the service keeps in Redis.
pub mod Consume
pub mod Keys
pub mod Sessions
pub mod Revocation
pub mod Reach
pub mod Lifetime
use braza_sso.Prelude.{
  ℕ, suc, ◌+◌, ◌*◌, Bool, Option, none, some, List, [], ◌∷◌, ◌++◌, map, Text, codes, Result, ok,
  stop, pure, ◌>>=◌, ◌>>◌,
}
use braza_sso.Env.Redis.{Redis}
use braza_sso.Env.Services.{Services}
use braza_sso.Go.Base64
use braza_sso.World.{World, Error, token_not_found, Call, redis_call, random_bytes}
use braza_sso.Prelude.{M}

-- Durations are in seconds.
abbrev pub minute : ℕ
minute = 60

abbrev pub hour : ℕ
hour = 60 * minute

abbrev pub day : ℕ
day = 24 * hour

unfoldable pub email_verify_key : Text → Text
email_verify_key token = codes "email_verify:" ++ token

unfoldable pub password_reset_key : Text → Text
password_reset_key token = codes "pwd_reset:" ++ token

unfoldable pub refresh_key : Text → Text
refresh_key token = codes "refresh:" ++ token

unfoldable pub user_sessions_key : Text → Text
user_sessions_key user_id = codes "user_sessions:" ++ user_id

unfoldable pub mfa_session_key : Text → Text
mfa_session_key token = codes "mfa_session:" ++ token

unfoldable pub login_attempts_key : Text → Text
login_attempts_key user_id = codes "login_attempts:" ++ user_id

unfoldable pub session_key : Text → Text
session_key token = codes "sso_session:" ++ token

-- `prefixRateLimit + "oauth_state:" + state`
unfoldable pub state_key : Text → Text
state_key state = codes "rate:oauth_state:" ++ state

abbrev pub max_login_attempts : ℕ
max_login_attempts = 5

abbrev pub login_attempt_window : ℕ
login_attempt_window = 15 * minute

abbrev pub lockout_duration : ℕ
lockout_duration = 30 * minute

-- The commands of a pipeline that deletes keys, in order.
unfoldable pub del_all : (R : Redis) → List Text → R.Db → R.Db
del_all R [] d = d
del_all R (k ∷ ks) d = del_all R ks (R.del k d)

module _ (S : Services) where
  abbrev R : Redis
  R = S.redis

  -- `redis.Set(ctx, key, value, ttl)`
  unfoldable pub set_key : Text → Text → ℕ → Call S (Unit {0})
  unfolding redis_call
  set_key key value ttl = redis_call S (λ now d. (ok tt, R.set now key value ttl d))

  -- `redis.GetDel(ctx, key)`, with `redis.Nil` as the error that the callers make of it.
  unfoldable pub get_del : Text → Call S Text
  unfolding redis_call
  get_del key = redis_call S λ now d. elim (R.value d now key) [
    | none ↦ (stop token_not_found, d)
    | some value ↦ (ok value, R.del key d)
  ]

  unfoldable pub del_key : Text → Call S (Unit {0})
  unfolding redis_call
  del_key key = redis_call S (λ now d. (ok tt, R.del key d))

  unfoldable pub random_token : {E : Type 0} → ℕ → M (World S) E Text
  unfolding random_bytes Base64.encode
  random_token n = do b ← random_bytes S n; pure (Base64.encode Base64.url b)

  unfoldable pub create_email_verification_token : Text → ℕ → Call S Text
  unfolding set_key random_token
  create_email_verification_token user_id ttl = do
    token ← random_token 32
    set_key (email_verify_key token) user_id ttl
    pure token

  unfoldable pub consume_email_verification_token : Text → Call S Text
  unfolding get_del
  consume_email_verification_token token = get_del (email_verify_key token)

  unfoldable pub create_password_reset_token : Text → ℕ → Call S Text
  unfolding set_key random_token
  create_password_reset_token user_id ttl = do
    token ← random_token 32
    set_key (password_reset_key token) user_id ttl
    pure token

  unfoldable pub consume_password_reset_token : Text → Call S Text
  unfolding get_del
  consume_password_reset_token token = get_del (password_reset_key token)

  -- The token and the entry of the user's set are two commands, so the second can fail alone.
  unfoldable pub store_refresh_token : Text → Text → ℕ → Call S (Unit {0})
  unfolding set_key redis_call
  store_refresh_token token user_id ttl = do
    set_key (refresh_key token) user_id ttl
    redis_call S (λ now d. (ok tt, R.sadd (user_sessions_key user_id) token d))

  -- The result of SREM is ignored.
  unfoldable pub forget_session : Text → Text → Call S (Unit {0})
  unfolding redis_call
  forget_session token user_id w =
      (ok tt, (redis_call S (λ now d. (ok tt, R.srem (user_sessions_key user_id) token d)) w).1)

  unfoldable pub consume_refresh_token : Text → Call S Text
  unfolding get_del forget_session
  consume_refresh_token token = do
    user_id ← get_del (refresh_key token)
    forget_session token user_id
    pure user_id

  -- SMEMBERS, then the deletions in one pipeline.
  unfoldable pub read_sessions : Text → Call S (List Text)
  unfolding redis_call
  read_sessions user_id = redis_call S (λ now d. (ok (R.elements d (user_sessions_key user_id)), d))

  unfoldable pub delete_sessions : Text → List Text → Call S (Unit {0})
  unfolding redis_call del_all
  delete_sessions user_id tokens =
      redis_call S
        (λ now d. (ok tt, R.del (user_sessions_key user_id) (del_all R (map refresh_key tokens) d)))

  unfoldable pub revoke_all_user_sessions : Text → Call S (Unit {0})
  unfolding read_sessions delete_sessions
  revoke_all_user_sessions user_id = do
    tokens ← read_sessions user_id
    delete_sessions user_id tokens

  unfoldable pub store_session_token : Text → Text → Call S (Unit {0})
  unfolding set_key
  store_session_token token user_id = set_key (session_key token) user_id (7 * day)

  unfoldable pub lookup_session_token : Text → Call S Text
  unfolding redis_call
  lookup_session_token token = redis_call S λ now d. elim (R.value d now (session_key token)) [
    | none ↦ (stop token_not_found, d)
    | some user_id ↦ (ok user_id, d)
  ]

  unfoldable pub revoke_session_token : Text → Call S (Unit {0})
  unfolding del_key
  revoke_session_token token = del_key (session_key token)

  unfoldable pub store_mfa_session : Text → Text → ℕ → Call S (Unit {0})
  unfolding set_key
  store_mfa_session token user_id ttl = set_key (mfa_session_key token) user_id ttl

  unfoldable pub consume_mfa_session : Text → Call S Text
  unfolding get_del
  consume_mfa_session token = get_del (mfa_session_key token)

  unfoldable pub set_state : Text → Text → Call S (Unit {0})
  unfolding set_key
  set_state state return_to = set_key (state_key state) return_to (10 * minute)

  unfoldable pub consume_state : Text → Call S Text
  unfolding get_del
  consume_state state = get_del (state_key state)

  -- INCR and EXPIRE in one pipeline; the count is what INCR answers.
  unfoldable pub incr_expire : Text → ℕ → Call S ℕ
  unfolding redis_call
  incr_expire key window =
      redis_call S
        λ now d. let d' = R.incr now key d in (ok (R.count d' now key), R.expire now key window d')

  unfoldable pub incr_login_attempts : Text → Call S ℕ
  unfolding incr_expire
  incr_login_attempts user_id = incr_expire (login_attempts_key user_id) login_attempt_window

  unfoldable pub reset_login_attempts : Text → Call S (Unit {0})
  unfolding del_key
  reset_login_attempts user_id = del_key (login_attempts_key user_id)
