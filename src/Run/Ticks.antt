-- ===== src/Run/Ticks.antt =====
-- The clock of calls under each step, and what the calls on the accounts leave of Redis.
use braza_sso.Prelude.{ℕ, suc, ◌≤◌, ◌≡◌, Text, arith, Result-cases, inl, inr}
use braza_sso.Env.Services.{Services}
use braza_sso.Model.{Uuid, User}
use braza_sso.Login.{refresh_token_ttl}
use braza_sso.Run.{
  drawn, Act, Run, here, next, store, consume, revoke, set_other, get_del_other, del_other,
  incr_other, enlist, update, elapse,
}
use braza_sso.Run.Frames.{
  store-IsFramed, consume-IsFramed, revoke-IsFramed, set_key-IsFramed, get_del-IsFramed,
  del_key-IsFramed, incr_expire-IsFramed,
}
use braza_sso.User.{
  create, find_by_id, update_user, find_by_email, lookup_email, insert_user, insert_email,
}
use braza_sso.World.{World, now}

module _ (S : Services) where
  -- The steps on Redis are all that matters to the sessions.
  abbrev pub IsApartFrom : World S → World S → Type 0
  IsApartFrom w w' = (w'.redis ≡ w.redis) × (w.tick ≤ w'.tick)

  find_by_id-apart : (id : Uuid) (w : World S) → IsApartFrom w (find_by_id S id w).1
  unfolding find_by_id
  find_by_id-apart id w = ground arith

  lookup_email-apart : (email : Text) (w : World S) → IsApartFrom w (lookup_email S email w).1
  unfolding lookup_email
  lookup_email-apart email w = ground arith

  insert_user-apart : (u : User) (w : World S) → IsApartFrom w (insert_user S u w).1
  unfolding insert_user
  insert_user-apart u w = ground arith

  insert_email-apart :
      (email : Text) (id : Uuid) (w : World S) → IsApartFrom w (insert_email S email id w).1
  unfolding insert_email
  insert_email-apart email id w = ground arith

  pub update_user-apart :
      (id : Uuid) (f : User → User) (w : World S) → IsApartFrom w (update_user S id f w).1
  unfolding update_user
  update_user-apart id f w = ground arith

  find_by_email-apart : (email : Text) (w : World S) → IsApartFrom w (find_by_email S email w).1
  unfolding find_by_email
  find_by_email-apart email w =
      let w1 = (lookup_email S email w).1 in
      elim (Result-cases (lookup_email S email w).0) [
        | inl (id, e) ↦ ground (arith, lookup_email-apart email w, find_by_id-apart id w1)
        | inr (x, e) ↦ ground (arith, lookup_email-apart email w)
      ]

  pub create-apart : (u : User) (w : World S) → IsApartFrom w (create S u w).1
  unfolding create now
  create-apart u w =
      let w1 = (find_by_email S u.email w).1 in
      let u' = record u { created_at = S.clock w1.tick; updated_at = S.clock w1.tick } in
      let w2 : World S = record w1 { tick = suc w1.tick } in
      let inserted = insert_user S u' w2 in
      elim (Result-cases (find_by_email S u.email w).0) [
        | inl (v, taken) ↦ ground (arith, find_by_email-apart u.email w)
        | inr (x, fresh) ↦ elim (Result-cases inserted.0) [
          | inl (_, written) ↦ ground (
            arith,
            find_by_email-apart u.email w,
            insert_user-apart u' w2,
            insert_email-apart u.email u.id inserted.1,
          )
          | inr (y, failed) ↦ ground (arith, find_by_email-apart u.email w, insert_user-apart u' w2)
        ]
      ]

  pub Act-tick : {n : ℕ} {w w' : World S} → Act S n w w' → w.tick ≤ w'.tick
  Act-tick (store i uid w le) = (store-IsFramed S (drawn S i 32) uid refresh_token_ttl w).2
  Act-tick (consume t w) = (consume-IsFramed S t w).2
  Act-tick (revoke uid w) = (revoke-IsFramed S uid w).2
  Act-tick (set_other key value ttl w written) = (set_key-IsFramed S key value ttl w).2
  Act-tick (get_del_other key w apart) = (get_del-IsFramed S key w).2
  Act-tick (del_other key w apart) = (del_key-IsFramed S key w).2
  Act-tick (incr_other key window w counter) = (incr_expire-IsFramed S key window w).2
  Act-tick (enlist f w same) =
      let (redis, le) = create-apart (f (S.new_uuid w.tick)) (record w { tick = suc w.tick }) in
      omega arith
  Act-tick (update id f w same) = (update_user-apart id f w).1
  Act-tick (elapse w w' redis users emails le) = le

  pub Run-tick : {n : ℕ} {w w' : World S} → Run S n w w' → w.tick ≤ w'.tick
  Run-tick here = omega arith
  Run-tick (next r a) = let before = Run-tick r in let last = Act-tick a in omega arith
