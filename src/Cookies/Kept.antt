-- ===== src/Cookies/Kept.antt =====
-- Computations that set no cookie.
use braza_sso.Prelude.{
  ℕ, ◌≡◌, ◌∙◌, refl, Bool, true, false, Option, none, some, Text, Result, ok, stop, M, pure, leave,
  stop_if, or_stop, or_else, attempt, choose, on_result, ◌>>=◌, >>=-inv, arith,
}
use braza_sso.Env.Services.{Services}
use braza_sso.Federation.{ask, find_or_create_user, upsert_identity, refetch, after_create}
use braza_sso.Jwt.{Config, issue_access_token, new_jti}
use braza_sso.Model.{Uuid, User, IdClaims}
use braza_sso.RecoveryCodes.{list_unused, mark_used}
use braza_sso.TokenStore.{
  get_del, random_token, store_refresh_token, consume_mfa_session, consume_state,
}
use braza_sso.Totp.{validate_code, open_mfa_session}
use braza_sso.User.{find_by_id, find_by_email, create, update_user, update_totp}
use braza_sso.World.{World, Response, Error, now, new_uuid, random_bytes, identities_call}

module _ (S : Services) where
  unfoldable pub Keeps : {E A : Type 0} → M (World S) E A → Type 0
  Keeps m = (w : World S) → (m w).1.cookies ≡ w.cookies

  pub pure-Keeps : (E : Type 0) {A : Type 0} (a : A) → Keeps (pure {W = World S} {E = E} a)
  unfolding Keeps
  pure-Keeps E a w = refl

  pub leave-Keeps : {E : Type 0} (A : Type 0) (e : E) → Keeps (leave {W = World S} {A = A} e)
  unfolding Keeps
  leave-Keeps A e w = refl

  pub stop_if-Keeps : {E : Type 0} (b : Bool) (e : E) → Keeps (stop_if {W = World S} b e)
  unfolding Keeps
  stop_if-Keeps b e w = ground arith

  pub or_stop-Keeps : {E A : Type 0} (o : Option A) (e : E) → Keeps (or_stop {W = World S} o e)
  unfolding Keeps
  or_stop-Keeps none e w = refl
  or_stop-Keeps (some a) e w = refl

  pub >>=-Keeps :
      {E A B : Type 0} (m : M (World S) E A) (f : A → M (World S) E B)
      → Keeps m
      → ((a : A) → Keeps (f a))
      → Keeps (m >>= f)
  unfolding Keeps
  >>=-Keeps m f hm hf w =
      >>=-inv (λ v. v.cookies ≡ w.cookies) m f w (hm w) (λ a e. hf a (m w).1 ∙ hm w)

  pub or_else-Keeps : {E X A : Type 0} (m : M (World S) E A) (x : X) → Keeps m → Keeps (or_else m x)
  unfolding Keeps
  or_else-Keeps m x h w = ground (arith, h w)

  pub attempt-Keeps :
      {E : Type 0} (X : Type 0) {A : Type 0} (m : M (World S) E A)
      → Keeps m
      → Keeps (attempt {X = X} m)
  unfolding Keeps
  attempt-Keeps X m h w = h w

  pub choose-Keeps :
      {E A : Type 0} (b : Bool) (m k : M (World S) E A) → Keeps m → Keeps k → Keeps (choose b m k)
  unfolding Keeps
  choose-Keeps true m k hm hk w = hm w
  choose-Keeps false m k hm hk w = hk w

  pub on_result-Keeps :
      {F E A B : Type 0} (r : Result F A) (f : A → M (World S) E B) (g : F → M (World S) E B)
      → ((a : A) → Keeps (f a))
      → ((e : F) → Keeps (g e))
      → Keeps (on_result r f g)
  unfolding Keeps
  on_result-Keeps (ok a) f g hf hg w = hf a w
  on_result-Keeps (stop e) f g hf hg w = hg e w

  pub get_del-Keeps : (key : Text) → Keeps (get_del S key)
  unfolding Keeps get_del
  get_del-Keeps key w = ground arith

  pub random_token-Keeps : (E : Type 0) (size : ℕ) → Keeps (random_token S {E = E} size)
  unfolding Keeps random_token random_bytes
  random_token-Keeps E size w = ground arith

  pub store_refresh_token-Keeps : (t uid : Text) (ttl : ℕ) → Keeps (store_refresh_token S t uid ttl)
  unfolding Keeps store_refresh_token
  store_refresh_token-Keeps t uid ttl w = ground arith

  pub consume_mfa_session-Keeps : (t : Text) → Keeps (consume_mfa_session S t)
  unfolding consume_mfa_session
  consume_mfa_session-Keeps t = get_del-Keeps _

  pub consume_state-Keeps : (t : Text) → Keeps (consume_state S t)
  unfolding consume_state
  consume_state-Keeps t = get_del-Keeps _

  pub now-Keeps : (E : Type 0) → Keeps (now S {E = E})
  unfolding Keeps now
  now-Keeps E w = ground arith

  pub new_uuid-Keeps : (E : Type 0) → Keeps (new_uuid S {E = E})
  unfolding Keeps new_uuid
  new_uuid-Keeps E w = ground arith

  pub find_by_id-Keeps : (id : Uuid) → Keeps (find_by_id S id)
  unfolding Keeps find_by_id
  find_by_id-Keeps id w = ground arith

  pub find_by_email-Keeps : (email : Text) → Keeps (find_by_email S email)
  unfolding Keeps find_by_email
  find_by_email-Keeps email w = ground arith

  pub create-Keeps : (u : User) → Keeps (create S u)
  unfolding Keeps create now
  create-Keeps u w = ground (arith, find_by_email-Keeps u.email w)

  pub update_totp-Keeps :
      (id : Uuid) (secret : Text) (on : Bool) → Keeps (update_totp S id secret on)
  unfolding Keeps update_totp update_user now
  update_totp-Keeps id secret on w = ground arith

  pub list_unused-Keeps : (id : Uuid) → Keeps (list_unused S id)
  unfolding Keeps list_unused
  list_unused-Keeps id w = ground arith

  pub mark_used-Keeps : (id code_id : Uuid) → Keeps (mark_used S id code_id)
  unfolding Keeps mark_used
  mark_used-Keeps id code_id w = ground arith

  module _ (c : Config) where
    pub ask-Keeps : {A : Type 0} (f : ℕ → Option A) (r : Response) → Keeps (ask S c f r)
    unfolding Keeps ask
    ask-Keeps f r w = ground arith

    pub issue_access_token-Keeps :
        (uid email : Text) (verified : Bool) (aud : Text)
        → Keeps (issue_access_token S c uid email verified aud)
    unfolding Keeps issue_access_token now new_jti random_bytes
    issue_access_token-Keeps uid email verified aud w = ground arith

    pub upsert_identity-Keeps :
        (id : Uuid) (provider provider_id email : Text)
        → Keeps (upsert_identity S c id provider provider_id email)
    unfolding Keeps upsert_identity now identities_call
    upsert_identity-Keeps id provider provider_id email w = ground arith

    pub validate_code-Keeps :
        (E : Type 0) (code secret : Text) → Keeps (validate_code S c {E = E} code secret)
    unfolding Keeps validate_code now
    validate_code-Keeps E code secret w = ground arith

pub ruleset keeps = (
  pure-Keeps, leave-Keeps, stop_if-Keeps, or_stop-Keeps, >>=-Keeps, or_else-Keeps, attempt-Keeps,
  choose-Keeps, on_result-Keeps, get_del-Keeps, random_token-Keeps, store_refresh_token-Keeps,
  consume_mfa_session-Keeps, consume_state-Keeps, now-Keeps, new_uuid-Keeps, find_by_id-Keeps,
  find_by_email-Keeps, create-Keeps, update_totp-Keeps, list_unused-Keeps, mark_used-Keeps,
  ask-Keeps, issue_access_token-Keeps, upsert_identity-Keeps, validate_code-Keeps,
)

module _ (S : Services) (c : Config) where
  pub open_mfa_session-Keeps : (session : Text) → Keeps S (open_mfa_session S c session)
  unfolding open_mfa_session
  open_mfa_session-Keeps session = search keeps depth 20 fits 3000

  refetch-Keeps : (u : User) (e : Error) → Keeps S (refetch S c u e)
  unfolding refetch
  refetch-Keeps u e = search keeps depth 20 fits 3000

  after_create-Keeps :
      (u : User) (e : Error) (r : Result Error (Unit {0})) → Keeps S (after_create S c u e r)
  unfolding after_create
  after_create-Keeps u e r = search (keeps, refetch-Keeps) depth 20 fits 3000

  pub find_or_create_user-Keeps : (claims : IdClaims) → Keeps S (find_or_create_user S c claims)
  unfolding find_or_create_user
  find_or_create_user-Keeps claims = search (keeps, after_create-Keeps) depth 20 fits 3000
