-- ===== src/Logout.antt =====
-- internal/auth/logout.go, with the back-channel notifier that `main` installs.
pub mod Ends
use braza_sso.Prelude.{
  ℕ, Bool, false, Option, none, some, [], ◌∷◌, Text, codes, Result, ok, stop, M, pure, on_result,
  attempt, or_stop, ◌>>=◌, ◌>>◌,
}
use braza_sso.Env.Services.{Services}
use braza_sso.Http.{write_header}
use braza_sso.Jwt.{Config, issue_access_token}
use braza_sso.Middleware.{session_token}
use braza_sso.Oauth.Logout.{notify_logout}
use braza_sso.TokenStore.{consume_refresh_token, revoke_all_user_sessions, revoke_session_token}
use braza_sso.World.{World, Error, Response, Handler, set_cookie, clear_refresh, clear_session}

module _ (S : Services) (c : Config) where
  -- The goroutine: its errors are only logged.
  unfoldable pub back_channel_logout : {E : Type 0} → Text → M (World S) E (Unit {0})
  back_channel_logout user_id = do
    issued ← attempt (issue_access_token S c user_id [] false (codes "logout"))
    on_result issued (λ logout_token. do attempt (notify_logout S user_id logout_token); pure tt)
        (λ _. pure tt)

  unfoldable pub end_refresh : {E : Type 0} → Option Text → M (World S) E (Unit {0})
  end_refresh none = pure tt
  end_refresh (some token) = do
    consumed ← attempt (consume_refresh_token S token)
    on_result consumed (λ user_id. back_channel_logout user_id) (λ _. pure tt)

  unfoldable pub end_session : {E : Type 0} → Option Text → M (World S) E (Unit {0})
  end_session none = pure tt
  end_session (some token) = do attempt (revoke_session_token S token); pure tt

  -- The refresh cookie and the session cookie, where the request has them.
  unfoldable pub logout : Option Text → Option Text → Handler S Response
  logout refresh_cookie session_cookie = do
    end_refresh (session_token refresh_cookie)
    end_session (session_token session_cookie)
    set_cookie S clear_refresh
    set_cookie S clear_session
    pure (write_header 200)

  -- The argument is the user of the context.
  unfoldable pub revoke_all : Option Text → Handler S Response
  revoke_all context = do
    user_id ← or_stop context (write_header 200)
    attempt (revoke_all_user_sessions S user_id)
    set_cookie S clear_refresh
    pure (write_header 200)

-- `BackChannelLogoutReceiver`: the token of the body, if it could be decoded, is not used.
unfoldable pub receive_logout : {W : Type 0} → Option Text → M W Response Response
receive_logout body = do or_stop body (write_header 400); pure (write_header 200)
