-- ===== src/Run/Once/Reset.antt =====
-- A link to reset a password after the attempt that it was used for.
use braza_sso.Prelude.{ℕ, ◌≡◌, ◌≢◌, false, some, [], Text, ok, subst, arith, text_eq, List, ◌>>=◌}
use braza_sso.Env.Services.{Services, ServiceLaws}
use braza_sso.Jwt.{Config}
use braza_sso.Password.{PolicyViolation, validate_password_policy}
use braza_sso.PasswordReset.{ResetBody, reset}
use braza_sso.PasswordReset.Outcomes.{reset_steps}
use braza_sso.Register.{reject_weak}
use braza_sso.Run.Calls.{calls}
use braza_sso.Run.Once.{
  IsFresh, password_reset_key-IsUnwritten, password_reset_key-not_refresh, stable, Over-Served,
}
use braza_sso.Run.Once.Spends.{Spends, spends}
use braza_sso.Run.Over.Steps.{IsStable}
use braza_sso.Run.Requests.{Served}
use braza_sso.TokenStore.{password_reset_key, consume_password_reset_token}
use braza_sso.TokenStore.Consume.{get_del_ok}
use braza_sso.World.{World, Response, Handler}

module _ (S : Services) (L : ServiceLaws S) (c : Config) where
  keeps :
      (n : ℕ) (t : Text) (fresh : IsFresh S n 32 t)
      → IsStable S L n (password_reset_key t) 0 (password_reset_key-IsUnwritten S n t fresh)
  keeps n t fresh =
      stable S L n (password_reset_key t) (password_reset_key-IsUnwritten S n t fresh)
        (λ i le. password_reset_key-not_refresh S n t _)

  reject_weak->>=-Spends :
      (n : ℕ) (t : Text) (fresh : IsFresh S n 32 t) (vs : List PolicyViolation) {A : Type 0}
      (f : Unit {0} → Handler S A)
      → vs ≡ []
      → Spends S L n
          (password_reset_key t)
          (password_reset_key-IsUnwritten S n t fresh)
          (keeps n t fresh)
          (f tt)
      → Spends S L n
          (password_reset_key t)
          (password_reset_key-IsUnwritten S n t fresh)
          (keeps n t fresh)
          (reject_weak vs >>= f)
  unfolding Spends
  reject_weak->>=-Spends n t fresh vs f strong spends w v le there = rw strong (spends w v le there)

  -- A reset that gets past the checks of its body uses its token up, whatever comes of it.
  reset-Spends :
      (n : ℕ) (req : ResetBody) (fresh : IsFresh S n 32 req.token)
      → text_eq req.token [] ≡ false
      → validate_password_policy S req.password ≡ []
      → Spends S L n
          (password_reset_key req.token)
          (password_reset_key-IsUnwritten S n req.token fresh)
          (keeps n req.token fresh)
          (reset S c (some req))
  unfolding reset consume_password_reset_token
  reset-Spends n req fresh named strong =
      search (calls, spends, reject_weak->>=-Spends) depth 20 fits 3000

  -- A reset link is good for one attempt: after a reset with a password that meets the policy and
  -- a token that Redis had, whatever the answer, and then any requests to the service, with any
  -- data, in any order, and whatever calls fail, no reset with the same token succeeds, if the
  -- token differs from every one drawn since.
  pub reset-Served :
      (req req' : ResetBody) (w w' : World S) {text : Text} (r' : Response)
      → req'.token ≡ req.token
      → IsFresh S w.tick 32 req.token
      → text_eq req.token [] ≡ false
      → validate_password_policy S req.password ≡ []
      → (consume_password_reset_token S req.token w).0 ≡ ok text
      → Served S c (reset S c (some req) w).1 w'
      → (reset S c (some req') w').0 ≢ ok r'
  unfolding Spends consume_password_reset_token
  reset-Served req req' w w' {text} r' same fresh named strong first served second =
      let K = password_reset_key req.token in
      let unwritten = password_reset_key-IsUnwritten S w.tick req.token fresh in
      let (over, ticks) = reset-Spends w.tick req fresh named strong w text (omega arith) first in
      let (_, (v, id, hash, there, _, _, _, _)) = reset_steps S c req' w' second in
      Over-Served S L w.tick c K unwritten v (keeps w.tick req.token fresh) ticks over served
        (get_del_ok S L.redis K w'
          (subst (λ t. (consume_password_reset_token S t w').0 ≡ ok v) same there)).0
