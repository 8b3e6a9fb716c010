-- ===== src/Run/Linked.antt =====
-- The accounts and the table of their addresses under every run of the service.
use braza_sso.Prelude.{
  ℕ, suc, ◌<◌, ◌≡◌, ◌≢◌, refl, sym, ap, ◌∙◌, subst, some, Text, ok, arith, Option-cases,
  Result-cases, inl, inr, ◌⊎◌,
}
use braza_sso.Env.Services.{Services, ServiceLaws}
use braza_sso.Jwt.{Config}
use braza_sso.Model.{Uuid, User}
use braza_sso.Run.{
  drawn, Act, Run, here, next, store, consume, revoke, set_other, get_del_other, del_other,
  incr_other, enlist, update, elapse,
}
use braza_sso.Run.Requests.{Served, Served-Run}
use braza_sso.Run.Ticks.{Act-tick, create-apart}
use braza_sso.TokenStore.{
  set_key, get_del, del_key, incr_expire, store_refresh_token, consume_refresh_token,
  revoke_all_user_sessions,
}
use braza_sso.User.{create, find_by_email, insert_user, insert_email}
use braza_sso.World.{World, now, deliver}
use braza_sso.Run.Links.{
  IsLinked, frame-IsLinked, update_user-IsLinked, insert_user-IsLinked, insert_user_ok,
  insert_email-IsLinked,
}
use braza_sso.Run.Frames.{
  IsFramed, find_by_email-IsFramed, store-IsFramed, consume-IsFramed, revoke-IsFramed,
  set_key-IsFramed, get_del-IsFramed, del_key-IsFramed, incr_expire-IsFramed,
}
use braza_sso.Login.{refresh_token_ttl}

module _ (S : Services) (L : ServiceLaws S) where
  -- The states that a creation ends in.
  create_states :
      (u : User) (w : World S)
      → let w1 = (find_by_email S u.email w).1 in
        let u' = record u { created_at = S.clock w1.tick; updated_at = S.clock w1.tick } in
        let inserted = insert_user S u' (record w1 { tick = suc w1.tick }) in
        ((create S u w).1 ≡ w1)
        ⊎ ((create S u w).1 ≡ inserted.1)
        ⊎ ((inserted.0 ≡ ok tt) × ((create S u w).1 ≡ (insert_email S u.email u.id inserted.1).1))
  unfolding create now
  create_states u w =
      let w1 = (find_by_email S u.email w).1 in
      let u' = record u { created_at = S.clock w1.tick; updated_at = S.clock w1.tick } in
      let inserted = insert_user S u' (record w1 { tick = suc w1.tick }) in
      elim (Result-cases (find_by_email S u.email w).0) [
        | inl (v, taken) ↦ inl (ground arith)
        | inr (e, fresh) ↦ elim (Result-cases inserted.0) [
          | inl (_, written) ↦ inr (inr (ground arith, ground arith))
          | inr (e', failed) ↦ inr (inl (ground arith))
        ]
      ]

  insert_user-tick : (u : User) (w : World S) {i : ℕ} → i < w.tick → i < (insert_user S u w).1.tick
  unfolding insert_user
  insert_user-tick u w le = omega arith

  -- Creating an account with an identifier that was drawn before and is not in use.
  framed : (w w' : World S) → IsFramed S w w' → IsLinked S w → IsLinked S w'
  framed w w' (users, emails, le) h = frame-IsLinked S L w w' users emails le h

  create-IsLinked :
      (u : User) (i : ℕ) (w : World S)
      → u.id ≡ S.new_uuid i
      → i < w.tick
      → ((email : Text) → S.users_by_email.row w.users_by_email email ≢ some u.id)
      → IsLinked S w
      → IsLinked S (create S u w).1
  create-IsLinked u i w drawn before unused h =
      let w1 = (find_by_email S u.email w).1 in
      let (users, emails, le) = find_by_email-IsFramed S u.email w in
      let h1 = frame-IsLinked S L w w1 users emails le h in
      let w2 : World S = record w1 { tick = suc w1.tick } in
      let h2 = frame-IsLinked S L w1 w2 refl refl (omega arith) h1 in
      let u' = record u { created_at = S.clock w1.tick; updated_at = S.clock w1.tick } in
      let unused2 : (email : Text) → S.users_by_email.row w2.users_by_email email ≢ some u'.id =
        λ email q. unused email (sym (ap (λ d. S.users_by_email.row d email) emails) ∙ q) in
      let h3 = insert_user-IsLinked S L u' w2 unused2 h2 in
      elim (create_states u w) [
        | inl e ↦ subst (IsLinked S) (sym e) h1
        | inr (inl e) ↦ subst (IsLinked S) (sym e) h3
        | inr (inr (written, e)) ↦ subst (IsLinked S) (sym e) (
            insert_email-IsLinked S L u.email u.id (insert_user S u' w2).1
              (
                u',
                i,
                insert_user_ok S L u' w2 written,
                refl,
                drawn,
                insert_user-tick u' w2 (omega arith),
              )
              h3)
      ]

  -- The identifiers that are drawn before a tick differ.
  abbrev pub AreDistinct : ℕ → Type 0
  AreDistinct n = (i j : ℕ) → i < j → j < n → S.new_uuid i ≢ S.new_uuid j

  pub Act-IsLinked :
      {n : ℕ} {w w' : World S} → AreDistinct w'.tick → Act S n w w' → IsLinked S w → IsLinked S w'
  Act-IsLinked distinct (store i uid w le) h =
      framed w (store_refresh_token S (drawn S i 32) uid refresh_token_ttl w).1
        (store-IsFramed S (drawn S i 32) uid refresh_token_ttl w) h
  Act-IsLinked distinct (consume t w) h =
      framed w (consume_refresh_token S t w).1 (consume-IsFramed S t w) h
  Act-IsLinked distinct (revoke uid w) h =
      framed w (revoke_all_user_sessions S uid w).1 (revoke-IsFramed S uid w) h
  Act-IsLinked distinct (set_other key value ttl w apart) h =
      framed w (set_key S key value ttl w).1 (set_key-IsFramed S key value ttl w) h
  Act-IsLinked distinct (get_del_other key w apart) h =
      framed w (get_del S key w).1 (get_del-IsFramed S key w) h
  Act-IsLinked distinct (del_other key w apart) h =
      framed w (del_key S key w).1 (del_key-IsFramed S key w) h
  Act-IsLinked distinct (incr_other key window w apart) h =
      framed w (incr_expire S key window w).1 (incr_expire-IsFramed S key window w) h
  Act-IsLinked distinct (enlist f w same) h =
      let w1 : World S = record w { tick = suc w.tick } in
      let (_, later) = create-apart S (f (S.new_uuid w.tick)) w1 in
      create-IsLinked (f (S.new_uuid w.tick)) w.tick w1 (same (S.new_uuid w.tick)) (omega arith)
        (λ email q.
          let (r, i, row, address, drawn, before) = h email (f (S.new_uuid w.tick)).id q in
          distinct i w.tick before (omega arith) (sym drawn ∙ same (S.new_uuid w.tick)))
        (framed w w1 (refl, refl, omega arith) h)
  Act-IsLinked distinct (update id f w same) h = update_user-IsLinked S L id f w same h
  Act-IsLinked distinct (elapse w w' redis users emails le) h = framed w w' (users, emails, le) h

  pub Run-IsLinked :
      {n : ℕ} {w w' : World S} → AreDistinct w'.tick → Run S n w w' → IsLinked S w → IsLinked S w'
  Run-IsLinked distinct here h = h
  Run-IsLinked distinct (next r a) h =
      let later = Act-tick S a in
      Act-IsLinked distinct a (Run-IsLinked (λ i j lt le. distinct i j lt (omega arith)) r h)

  find_by_email_row :
      (email : Text) (w : World S) {u : User}
      → (find_by_email S email w).0 ≡ ok u
      → (id : Uuid) × (r : User) × (S.users_by_email.row w.users_by_email email ≡ some id)
        × (S.users.row w.users id ≡ some r)
        × (u ≡ record r { id = id })
  unfolding find_by_email deliver
  find_by_email_row email w h = elim (Option-cases (S.users_by_email.row w.users_by_email email)) [
    | inl e ↦ absurd (ground arith)
    | inr (id, e) ↦ elim (Option-cases (S.users.row w.users id)) [
      | inl e' ↦ absurd (ground arith)
      | inr (r, e') ↦ (id, r, e, e', ground arith)
    ]
  ]

  -- From a state in which each address of the lookup table leads to an account with that address,
  -- under an identifier that was drawn before, and after any requests to the service, with any data,
  -- in any order, and whatever calls fail: an account that is found by an address has that address,
  -- if the identifiers that were drawn until then differ.
  pub find_by_email-Served :
      (c : Config) (email : Text) {start w : World S} {u : User}
      → AreDistinct w.tick
      → IsLinked S start
      → Served S c start w
      → (find_by_email S email w).0 ≡ ok u
      → u.email ≡ email
  find_by_email-Served c email {start} {w} {u} distinct linked served found =
      let (id, r, named, row, e) = find_by_email_row email w found in
      let (r', _, row', same, _, _) =
        Run-IsLinked distinct (Served-Run S c 0 (omega arith) served) linked email id named in
      ground (arith, row, row', same, e)
