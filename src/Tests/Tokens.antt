-- ===== src/Tests/Tokens.antt =====
-- The theorems on the token store, applied.
use braza_sso.Prelude.{Text, codes, [], ◌∷◌, ok, refl, ◌≡◌, ◌≢◌, arith}
use braza_sso.Go.Base64
use braza_sso.TokenStore
use braza_sso.TokenStore.Lifetime
use braza_sso.TokenStore.Reach
use braza_sso.Tests.{services, laws, start}
use braza_sso.World.{World, token_not_found, redis_call}

abbrev uid : Text
uid = 5 ∷ []

abbrev token : Text
token = codes "t"

abbrev stored : World services
stored = (TokenStore.store_refresh_token services token uid 60 start).1

revoke-after-Reach_example :
    (TokenStore.consume_refresh_token services token
      (TokenStore.revoke_all_user_sessions services uid stored).1).0
    ≢ ok uid
unfolding TokenStore.store_refresh_token TokenStore.revoke_all_user_sessions braza_sso.World.deliver
revoke-after-Reach_example =
    Reach.revoke-after-Reach services laws uid token {start = start} {w = stored}
      (TokenStore.revoke_all_user_sessions services uid stored).1
      (λ t v u le e. absurd (ground arith))
      (Reach.next Reach.here (Reach.store token uid 60 start refl)) refl refl (ground arith)

abbrev created : World services
created = (TokenStore.create_password_reset_token services uid 60 start).1

-- The token that is made in the first state.
abbrev reset_token : Text
reset_token = Base64.encode Base64.url (services.random 0 32)

create-consume_password_reset_token_example :
    ((TokenStore.create_password_reset_token services uid 60 start).0 ≡ ok reset_token)
    × ((TokenStore.consume_password_reset_token services reset_token created).0 ≡ ok uid)
unfolding TokenStore.create_password_reset_token braza_sso.World.deliver
create-consume_password_reset_token_example =
    Lifetime.create-consume_password_reset_token services laws uid 60 start created refl refl
      (ground arith) refl

abbrev with_session : World services
with_session = (TokenStore.store_mfa_session services token uid 60 start).1
