-- ===== src/Run.antt =====
-- The service as a whole: what the handlers of cmd/api do to Redis and to the accounts, as runs of
-- a few kinds of steps, each with any fate of its calls.
pub mod Keys
pub mod Ticks
pub mod Combine
pub mod Calls
pub mod SignIn
pub mod Account
pub mod Guards
pub mod Partners
pub mod Requests
pub mod Frames
pub mod Links
pub mod Linked
pub mod Tracked
pub mod Over
pub mod Week
pub mod Once
use braza_sso.Prelude.{ℕ, suc, ◌≤◌, ◌≡◌, ◌++◌, Text, codes, M}
use braza_sso.Env.Services.{Services}
use braza_sso.Go.Base64
use braza_sso.Login.{refresh_token_ttl}
use braza_sso.Model.{Uuid, User}
use braza_sso.Oauth.Handlers.{auth_code_key}
use braza_sso.TokenStore.{
  set_key, get_del, del_key, incr_expire, store_refresh_token, consume_refresh_token,
  revoke_all_user_sessions, email_verify_key, password_reset_key, session_key, mfa_session_key,
  state_key, login_attempts_key,
}
use braza_sso.TokenStore.Keys.{IsApart}
use braza_sso.User.{create, update_user}
use braza_sso.World.{World}

-- The token drawn at a tick, from a number of random bytes.
unfoldable pub drawn : Services → ℕ → ℕ → Text
drawn S i size = Base64.encode Base64.url (S.random i size)

-- The keys that the service sets, other than those of refresh tokens: each holds a token that was
-- drawn at tick n or later.
pub data Written (S : Services) (n : ℕ) : Text → Type 0 where
  of_email : (i : ℕ) → n ≤ i → Written S n (email_verify_key (drawn S i 32))
  of_reset : (i : ℕ) → n ≤ i → Written S n (password_reset_key (drawn S i 32))
  of_session : (i : ℕ) → n ≤ i → Written S n (session_key (drawn S i 32))
  of_mfa : (i : ℕ) → n ≤ i → Written S n (mfa_session_key (drawn S i 32))
  of_state : (i : ℕ) → n ≤ i → Written S n (state_key (drawn S i 16))
  of_code : (i : ℕ) → n ≤ i → Written S n (auth_code_key (drawn S i 24))

-- The keys of counters: failed attempts, and the limiters'.
pub data Counter : Text → Type 0 where
  of_attempts : (uid : Text) → Counter (login_attempts_key uid)
  of_limiter : (t : Text) → Counter (codes "rl:" ++ t)

-- One step, in which a token that is stored was drawn at tick n or later. `enlist` draws an
-- identifier and creates an account with it; `update` leaves an account's address alone; `elapse`
-- is whatever touches neither Redis nor the accounts.
pub data Act (S : Services) (n : ℕ) : World S → World S → Type 0 where
  store :
      (i : ℕ) (uid : Text) (w : World S)
      → n ≤ i
      → Act S n w (store_refresh_token S (drawn S i 32) uid refresh_token_ttl w).1
  consume : (t : Text) (w : World S) → Act S n w (consume_refresh_token S t w).1
  revoke : (uid : Text) (w : World S) → Act S n w (revoke_all_user_sessions S uid w).1
  set_other :
      (key value : Text) (ttl : ℕ) (w : World S)
      → Written S n key
      → Act S n w (set_key S key value ttl w).1
  get_del_other : (key : Text) (w : World S) → IsApart key → Act S n w (get_del S key w).1
  del_other : (key : Text) (w : World S) → IsApart key → Act S n w (del_key S key w).1
  incr_other :
      (key : Text) (window : ℕ) (w : World S)
      → Counter key
      → Act S n w (incr_expire S key window w).1
  enlist :
      (f : Uuid → User) (w : World S)
      → ((id : Uuid) → (f id).id ≡ id)
      → Act S n w (create S (f (S.new_uuid w.tick)) (record w { tick = suc w.tick })).1
  update :
      (id : Uuid) (f : User → User) (w : World S)
      → ((u : User) → (f u).email ≡ u.email)
      → Act S n w (update_user S id f w).1
  elapse :
      (w w' : World S)
      → w'.redis ≡ w.redis
      → w'.users ≡ w.users
      → w'.users_by_email ≡ w.users_by_email
      → w.tick ≤ w'.tick
      → Act S n w w'

pub data Run (S : Services) (n : ℕ) (w : World S) : World S → Type 0 where
  here : Run S n w w
  next : {u v : World S} → Run S n w u → Act S n u v → Run S n w v

-- A computation is a run of steps, from every state at tick n or later.
unfoldable pub Runs : (S : Services) (n : ℕ) → {E A : Type 0} → M (World S) E A → Type 0
Runs S n m = (w : World S) → n ≤ w.tick → Run S n w (m w).1
