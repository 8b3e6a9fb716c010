-- ===== src/Run/Frames.antt =====
-- The calls that leave the accounts and their lookup table alone.
use braza_sso.Prelude.{ℕ, ◌≤◌, ◌≡◌, Text, arith, Result-cases, inl, inr}
use braza_sso.Env.Services.{Services}
use braza_sso.Model.{Uuid}
use braza_sso.TokenStore.{
  set_key, get_del, del_key, incr_expire, store_refresh_token, consume_refresh_token,
  revoke_all_user_sessions, forget_session, read_sessions, delete_sessions,
}
use braza_sso.User.{find_by_id, find_by_email, lookup_email}
use braza_sso.World.{World, deliver}

module _ (S : Services) where
  -- The steps on the two tables are all that matters to the entries.
  abbrev pub IsFramed : World S → World S → Type 0
  IsFramed w w' = (w'.users ≡ w.users) × (w'.users_by_email ≡ w.users_by_email) × (w.tick ≤ w'.tick)

  pub find_by_id-IsFramed : (id : Uuid) (w : World S) → IsFramed w (find_by_id S id w).1
  unfolding find_by_id deliver
  find_by_id-IsFramed id w = ground arith

  pub lookup_email-IsFramed : (email : Text) (w : World S) → IsFramed w (lookup_email S email w).1
  unfolding lookup_email deliver
  lookup_email-IsFramed email w = ground arith

  pub find_by_email-IsFramed : (email : Text) (w : World S) → IsFramed w (find_by_email S email w).1
  unfolding find_by_email
  find_by_email-IsFramed email w =
      let w1 = (lookup_email S email w).1 in
      elim (Result-cases (lookup_email S email w).0) [
        | inl (id, e) ↦ ground (arith, lookup_email-IsFramed email w, find_by_id-IsFramed id w1)
        | inr (x, e) ↦ ground (arith, lookup_email-IsFramed email w)
      ]

  -- Steps on Redis.
  pub store-IsFramed :
      (t uid : Text) (ttl : ℕ) (w : World S) → IsFramed w (store_refresh_token S t uid ttl w).1
  unfolding store_refresh_token deliver
  store-IsFramed t uid ttl w = ground arith

  pub consume-IsFramed : (t : Text) (w : World S) → IsFramed w (consume_refresh_token S t w).1
  unfolding consume_refresh_token get_del forget_session deliver
  consume-IsFramed t w = ground arith

  pub revoke-IsFramed : (uid : Text) (w : World S) → IsFramed w (revoke_all_user_sessions S uid w).1
  unfolding revoke_all_user_sessions read_sessions delete_sessions deliver
  revoke-IsFramed uid w = ground arith

  pub set_key-IsFramed :
      (key value : Text) (ttl : ℕ) (w : World S) → IsFramed w (set_key S key value ttl w).1
  unfolding set_key
  set_key-IsFramed key value ttl w = ground arith

  pub get_del-IsFramed : (key : Text) (w : World S) → IsFramed w (get_del S key w).1
  unfolding get_del
  get_del-IsFramed key w = ground arith

  pub del_key-IsFramed : (key : Text) (w : World S) → IsFramed w (del_key S key w).1
  unfolding del_key
  del_key-IsFramed key w = ground arith

  pub incr_expire-IsFramed :
      (key : Text) (window : ℕ) (w : World S) → IsFramed w (incr_expire S key window w).1
  unfolding incr_expire
  incr_expire-IsFramed key window w = ground arith
