-- ===== src/Logout/Ends.antt =====
-- A logout always ends the browser's session.
use braza_sso.Prelude.{ℕ, ◌≡◌, Option, none, some, ◌∷◌, Text, ok, stop, arith, text_eq_refl}
use braza_sso.Env.Services.{Services, ServiceLaws, delivered}
use braza_sso.Http.{write_header}
use braza_sso.Jwt.{Config}
use braza_sso.Logout.{logout, end_refresh, end_session, back_channel_logout}
use braza_sso.Middleware.{session_token}
use braza_sso.TokenStore.{revoke_session_token, lookup_session_token, session_key}
use braza_sso.World.{World, Response, set_cookie, deliver, token_not_found}

module _ (S : Services) (c : Config) where
  end_refresh_ok : (o : Option Text) (w : World S) → (end_refresh S c {E = Response} o w).0 ≡ ok tt
  unfolding end_refresh back_channel_logout
  end_refresh_ok none w = ground arith
  end_refresh_ok (some t) w = ground arith

  end_session_ok : (o : Option Text) (w : World S) → (end_session S c {E = Response} o w).0 ≡ ok tt
  unfolding end_session
  end_session_ok none w = ground arith
  end_session_ok (some t) w = ground arith

  -- A logout with a session cookie, whose call to revoke the session is answered, is answered with
  -- 200, whatever else fails; and while nothing else is written to Redis, the session is unknown
  -- to every later lookup that is answered.
  pub logout_lem :
      (L : ServiceLaws S) (refresh : Option Text) (b : ℕ) (t : Text) (w w' : World S)
      → S.fault (end_refresh S c {E = Response} (session_token refresh) w).1.tick ≡ delivered
      → w'.redis ≡ (logout S c refresh (some (b ∷ t)) w).1.redis
      → S.fault w'.tick ≡ delivered
      → ((logout S c refresh (some (b ∷ t)) w).0 ≡ ok (write_header 200))
        × ((lookup_session_token S (b ∷ t) w').0 ≡ stop token_not_found)
  unfolding logout end_session revoke_session_token lookup_session_token set_cookie deliver
  logout_lem L refresh b t w w' f same f' =
      let w1 = (end_refresh S c {E = Response} (session_token refresh) w).1 in
      ground (
        arith,
        end_refresh_ok (session_token refresh) w,
        L.redis.value-del (session_key (b ∷ t)) w1.redis (S.clock w'.tick) (session_key (b ∷ t)),
        text_eq_refl (session_key (b ∷ t)),
      )
