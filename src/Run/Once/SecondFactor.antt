-- ===== src/Run/Once/SecondFactor.antt =====
-- A session of the second factor after the attempt that it was used for.
use braza_sso.Prelude.{ℕ, ◌≡◌, ◌≢◌, false, some, [], Text, ok, subst, arith, text_eq, ◌||◌}
use braza_sso.Env.Services.{Services, ServiceLaws}
use braza_sso.Jwt.{Config}
use braza_sso.Run.Account.{
  validate_code-Runs, issue_token_pair_for_user-Runs, list_unused-Runs, mark_used-Runs,
}
use braza_sso.Run.Calls.{calls}
use braza_sso.Run.Once.{
  IsFresh, mfa_session_key-IsUnwritten, mfa_session_key-not_refresh, stable, Over-Served,
}
use braza_sso.Run.Once.Spends.{Spends, spends}
use braza_sso.Run.Over.Steps.{IsUnwritten, IsStable}
use braza_sso.Run.Requests.{Served}
use braza_sso.TokenStore.{mfa_session_key, consume_mfa_session}
use braza_sso.TokenStore.Consume.{get_del_ok}
use braza_sso.Totp.{VerifyRequest, verify, recovery, open_mfa_session}
use braza_sso.Totp.SecondFactor.{verify_ok, recovery_steps}
use braza_sso.World.{World, Response, Handler}

-- The two requests that end a sign-in with a second factor.
pub data SecondStep : Type 0 where
  by_code : SecondStep
  by_recovery : SecondStep

abbrev pub step : (S : Services) → Config → SecondStep → VerifyRequest → Handler S Response
step S c by_code req = verify S c (some req)
step S c by_recovery req = recovery S c (some req)

module _ (S : Services) (L : ServiceLaws S) (c : Config) where
  module _ (n : ℕ) (t : Text) (fresh : IsFresh S n 32 t) where
    abbrev unwritten : IsUnwritten S n (mfa_session_key t)
    unwritten = mfa_session_key-IsUnwritten S n t fresh

    keeps : IsStable S L n (mfa_session_key t) 0 unwritten
    keeps = stable S L n (mfa_session_key t) unwritten (λ i le. mfa_session_key-not_refresh S n t _)

    open_mfa_session-Spends :
        Spends S L n (mfa_session_key t) unwritten keeps (open_mfa_session S c t)
    unfolding open_mfa_session consume_mfa_session
    open_mfa_session-Spends = search (calls, spends) depth 20 fits 3000

  module _ (n : ℕ) (req : VerifyRequest) (fresh : IsFresh S n 32 req.mfa_session_id)
      (filled : (text_eq req.mfa_session_id [] || text_eq req.code []) ≡ false) where
    abbrev K : Text
    K = mfa_session_key req.mfa_session_id

    -- An attempt with both fields uses its session up, whatever comes of it.
    verify-Spends :
        Spends S L n K
          (unwritten n req.mfa_session_id fresh)
          (keeps n req.mfa_session_id fresh)
          (verify S c (some req))
    unfolding verify
    verify-Spends =
        search
          (
            calls, spends, open_mfa_session-Spends, validate_code-Runs,
            issue_token_pair_for_user-Runs,
          )
          depth 20 fits 3000

    recovery-Spends :
        Spends S L n K
          (unwritten n req.mfa_session_id fresh)
          (keeps n req.mfa_session_id fresh)
          (recovery S c (some req))
    unfolding recovery
    recovery-Spends =
        search (calls, spends, open_mfa_session-Spends, list_unused-Runs, mark_used-Runs) depth 30
          fits 3000

  step-Spends :
      (s : SecondStep) (n : ℕ) (req : VerifyRequest) (fresh : IsFresh S n 32 req.mfa_session_id)
      → (text_eq req.mfa_session_id [] || text_eq req.code []) ≡ false
      → Spends S L n
          (mfa_session_key req.mfa_session_id)
          (unwritten n req.mfa_session_id fresh)
          (keeps n req.mfa_session_id fresh)
          (step S c s req)
  step-Spends by_code n req fresh filled = verify-Spends n req fresh filled
  step-Spends by_recovery n req fresh filled = recovery-Spends n req fresh filled

  -- Both steps begin with their session.
  step_ok :
      (s : SecondStep) (req : VerifyRequest) (w : World S) {r : Response}
      → (step S c s req w).0 ≡ ok r
      → (text : Text) × ((consume_mfa_session S req.mfa_session_id w).0 ≡ ok text)
  step_ok by_code req w h =
      let (text, id, u, taken, _, _, _) = verify_ok S c req w h in (text, taken)
  step_ok by_recovery req w h =
      let (text, id, l, row, taken, _, _) = recovery_steps S c req w h in (text, taken)

  -- A sign-in with a second factor has one attempt: after a request with a code or with a recovery
  -- code, both its fields filled, whose session Redis had, whatever the answer, and then any
  -- requests to the service, with any data, in any order, and whatever calls fail, no request of
  -- either kind with the same session succeeds, if the session differs from every token of its
  -- size that was drawn since.
  pub step-Served :
      (s s' : SecondStep) (req req' : VerifyRequest) (w w' : World S) {text : Text} (r' : Response)
      → req'.mfa_session_id ≡ req.mfa_session_id
      → IsFresh S w.tick 32 req.mfa_session_id
      → (text_eq req.mfa_session_id [] || text_eq req.code []) ≡ false
      → (consume_mfa_session S req.mfa_session_id w).0 ≡ ok text
      → Served S c (step S c s req w).1 w'
      → (step S c s' req' w').0 ≢ ok r'
  unfolding Spends consume_mfa_session
  step-Served s s' req req' w w' {text} r' same fresh filled first served second =
      let t = req.mfa_session_id in
      let (over, ticks) = step-Spends s w.tick req fresh filled w text (omega arith) first in
      let (v, there) = step_ok s' req' w' second in
      let taken = subst (λ t. (consume_mfa_session S t w').0 ≡ ok v) same there in
      Over-Served S L w.tick c (mfa_session_key t) (unwritten w.tick t fresh) v
        (keeps w.tick t fresh) ticks over served
        (get_del_ok S L.redis (mfa_session_key t) w' taken).0
