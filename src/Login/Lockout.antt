-- ===== src/Login/Lockout.antt =====
-- The lock after too many failed attempts, in a run where every call is answered.
use braza_sso.Prelude.{
  ℕ, suc, ap, sym, ◌∙◌, subst, ◌+◌, ◌≡◌, ◌≤◌, ◌<◌, refl, false, Option, some, [], ◌∷◌, ◌++◌, Text,
  codes, ok, stop, arith, text_eq,
}
use braza_sso.Model.{Uuid, Time, User}
use braza_sso.Env.Services.{Services, ServiceLaws, delivered}
use braza_sso.Http.{write_error}
use braza_sso.Jwt.{Config}
use braza_sso.Login.{
  LoginRequest, login, normalize_email, check_credentials, refuse, handle_failed_attempt, lock_for,
}
use braza_sso.Login.Access.{login-locked, handle_failed_attempt_lem}
use braza_sso.Password.{verify_password}
use braza_sso.TokenStore.{
  incr_login_attempts, login_attempts_key, max_login_attempts, lockout_duration,
}
use braza_sso.User.{find_by_email, update_failed_attempts, row_of}
use braza_sso.World.{World, Response, Error, account_locked, now, send_mail, deliver}

-- Every call reaches its server and is answered.
abbrev pub IsReliable : Services → Type 0
IsReliable S = (tick : ℕ) → S.fault tick ≡ delivered

module _ (S : Services) (c : Config) (L : ServiceLaws S) (reliable : IsReliable S) where
  -- The row that the lock leaves, from the time of the fifth failure.
  abbrev locked_row : User → World S → ℕ → User
  locked_row u w n = record (row_of u.id (S.users.row w.users u.id)) {
    failed_attempts = n;
    locked_until = some (S.clock (suc w.tick) + lockout_duration);
    updated_at = S.clock (suc (suc w.tick));
  }

  incr_login_attempts-counts :
      (uid : Text) (w : World S)
      → let w' = (incr_login_attempts S uid w).1 in
        ((incr_login_attempts S uid w).0
          ≡ ok (suc (S.redis.count w.redis (S.clock w.tick) (login_attempts_key uid))))
        × (w'.users ≡ w.users)
        × (w'.tick ≡ suc w.tick)
        × (w'.mails ≡ w.mails)
  unfolding incr_login_attempts deliver
  incr_login_attempts-counts uid w =
      ground (
        arith,
        reliable w.tick,
        L.redis.count-incr (S.clock w.tick) (login_attempts_key uid) w.redis,
      )

  update_failed_attempts-row :
      (id : Uuid) (n : ℕ) (until : Option Time) (w : World S)
      → S.users.row (update_failed_attempts S id n until w).1.users id
        ≡ some (record (row_of id (S.users.row w.users id)) {
          failed_attempts = n;
          locked_until = until;
          updated_at = S.clock w.tick;
        })
  unfolding update_failed_attempts deliver
  update_failed_attempts-row id n until w = ground (
    arith,
    reliable (suc w.tick),
    L.users.row-upsert id
        (λ r. record (row_of id r) {
          failed_attempts = n;
          locked_until = until;
          updated_at = S.clock w.tick;
        })
        w.users,
  )

  update_failed_attempts-mails :
      (id : Uuid) (n : ℕ) (until : Option Time) (w : World S)
      → (update_failed_attempts S id n until w).1.mails ≡ w.mails
  unfolding update_failed_attempts
  update_failed_attempts-mails id n until w = ground arith

  lock_for_lem :
      (u : User) (n : ℕ) (w : World S)
      → max_login_attempts ≤ n
      → let w' = (lock_for S c {E = Response} u n w).1 in
        ((lock_for S c {E = Response} u n w).0 ≡ ok (some (S.clock w.tick + lockout_duration)))
        × (w'.users ≡ w.users)
        × (w'.tick ≡ suc w.tick)
        × (w'.mails ≡ w.mails ++ (account_locked u.email (c.base_url ++ codes "/auth/unlock") ∷ []))
  unfolding lock_for now send_mail
  lock_for_lem u n w enough = ground arith

  -- Where every call is answered, a failure that is at least the fifth within the window writes
  -- the lock, for half an hour, and the count into the account's row, and one mail says so.
  pub handle_failed_attempt-locks :
      (u : User) (w : World S)
      → max_login_attempts
        ≤ suc (S.redis.count w.redis (S.clock w.tick) (login_attempts_key (S.uuid_text u.id)))
      → let w' = (handle_failed_attempt S c {E = Response} u w).1 in
        (S.users.row w'.users u.id
          ≡ some (
              locked_row u w (
                suc (
                  S.redis.count w.redis (S.clock w.tick) (login_attempts_key (S.uuid_text u.id))))))
        × (w'.mails ≡ w.mails ++ (account_locked u.email (c.base_url ++ codes "/auth/unlock") ∷ []))
  unfolding handle_failed_attempt
  handle_failed_attempt-locks u w enough =
      let n : ℕ =
        suc (S.redis.count w.redis (S.clock w.tick) (login_attempts_key (S.uuid_text u.id))) in
      let w1 = (incr_login_attempts S (S.uuid_text u.id) w).1 in
      let w2 = (lock_for S c {E = Response} u n w1).1 in
      let until : Time = S.clock w1.tick + lockout_duration in
      ground (
        arith,
        incr_login_attempts-counts (S.uuid_text u.id) w,
        lock_for_lem u n w1 enough,
        update_failed_attempts-row u.id n (some until) w2,
        update_failed_attempts-mails u.id n (some until) w2,
      )

  -- An account that its address leads to is found, after two calls.
  pub find_by_email-found :
      (email : Text) (id : Uuid) (r : User) (w : World S)
      → S.users_by_email.row w.users_by_email email ≡ some id
      → S.users.row w.users id ≡ some r
      → ((find_by_email S email w).0 ≡ ok (record r { id = id }))
        × ((find_by_email S email w).1.tick ≡ suc (suc w.tick))
  unfolding find_by_email deliver
  find_by_email-found email id r w named found =
      ground (arith, reliable w.tick, reliable (suc w.tick))

  check_credentials-locks :
      (u : User) (password : Text) {e : Error} (w : World S)
      → verify_password S password c.pepper u.password_hash ≡ stop e
      → (check_credentials S c u password w).1.users
        ≡ (handle_failed_attempt S c {E = Response} u w).1.users
  unfolding check_credentials refuse
  check_credentials-locks u password w wrong = ground (arith, handle_failed_attempt_lem S c u w)

  -- Where every call is answered, a wrong password that is at least the fifth failure within the
  -- window shuts the account: until half an hour after it, every login that names its address and
  -- some password is refused with 403, while nothing else writes the accounts.
  pub lockout :
      (u : User) (password : Text) {e : Error} (req : LoginRequest) (w w' : World S)
      → verify_password S password c.pepper u.password_hash ≡ stop e
      → max_login_attempts
        ≤ suc (S.redis.count w.redis (S.clock w.tick) (login_attempts_key (S.uuid_text u.id)))
      → w'.users ≡ (check_credentials S c u password w).1.users
      → S.users_by_email.row w'.users_by_email (normalize_email req.email) ≡ some u.id
      → text_eq (normalize_email req.email) [] ≡ false
      → text_eq req.password [] ≡ false
      → S.clock (suc (suc w'.tick)) < S.clock (suc w.tick) + lockout_duration
      → (login S c (some req) w').0 ≡ stop (write_error 403 "account is temporarily locked")
  lockout u password req w w' wrong enough same named email secret early =
      let n : ℕ =
        suc (S.redis.count w.redis (S.clock w.tick) (login_attempts_key (S.uuid_text u.id))) in
      let r = locked_row u w n in
      let row = handle_failed_attempt-locks u w enough in
      let (found, next) = find_by_email-found (normalize_email req.email) u.id r w' named (
        ap (λ d. S.users.row d u.id) (same ∙ check_credentials-locks u password w wrong) ∙ row.0) in
      ap (λ p. p.0)
        (login-locked S c req w' email secret found refl
          (subst (λ t. S.clock t < S.clock (suc w.tick) + lockout_duration) (sym next) early))
