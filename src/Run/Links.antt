-- ===== src/Run/Links.antt =====
-- The lookup table of addresses and the accounts it leads to, under each write.
use braza_sso.Prelude.{
  ℕ, suc, ◌≤◌, ◌<◌, ◌≡◌, ◌≢◌, refl, sym, ap, ◌∙◌, subst, Option, some, Text, Result, ok, arith,
  text_eq, text_eq_iff, Bool-cases, inl, inr, ◌⊎◌, ℕ_discrete,
}
use braza_sso.Env.Services.{Services, ServiceLaws, Fault, delivered, lost, late}
use braza_sso.Model.{Uuid, User}
use braza_sso.User.{update_user, insert_user, insert_email, row_of}
use braza_sso.World.{World, Error, now, deliver}

-- An entry of the lookup table that is sound: its account exists, has the address, and has an
-- identifier that was drawn before the given tick.
abbrev pub LinksTo : (S : Services) → S.users.Db → ℕ → Text → Uuid → Type 0
LinksTo S users tick email id =
    (r : User) × (i : ℕ) × (S.users.row users id ≡ some r)
    × (r.email ≡ email)
    × (id ≡ S.new_uuid i)
    × (i < tick)

abbrev pub IsLinked : (S : Services) → World S → Type 0
IsLinked S w =
    (email : Text) (id : Uuid)
    → S.users_by_email.row w.users_by_email email ≡ some id
    → LinksTo S w.users w.tick email id

module _ (S : Services) (L : ServiceLaws S) where
  -- Steps that leave the two tables alone.
  pub frame-IsLinked :
      (w w' : World S)
      → w'.users ≡ w.users
      → w'.users_by_email ≡ w.users_by_email
      → w.tick ≤ w'.tick
      → IsLinked S w
      → IsLinked S w'
  frame-IsLinked w w' users emails le h email id e =
      let (r, i, row, same, drawn, before) =
        h email id (sym (ap (λ d. S.users_by_email.row d email) emails) ∙ e) in
      (r, i, ap (λ d. S.users.row d id) users ∙ row, same, drawn, omega arith)

  -- What a write of one row does to an entry: nothing, if it is the row of another account.
  upsert-LinksTo :
      (id : Uuid) (f : Option User → User) (users : S.users.Db) (tick : ℕ) (email : Text) (j : Uuid)
      → ((r : User) → j ≡ id → S.users.row users id ≡ some r → (f (some r)).email ≡ r.email)
      → LinksTo S users tick email j
      → LinksTo S (S.users.upsert id f users) tick email j
  upsert-LinksTo id f users tick email j keeps (r, i, row, same, drawn, before) =
      elim (ℕ_discrete j id) [
        | yes e ↦
            let row' : S.users.row users id ≡ some r =
              subst (λ k. S.users.row users k ≡ some r) e row in
            (
              f (some r),
              i,
              subst (λ k. S.users.row (S.users.upsert id f users) k ≡ some (f (some r))) (sym e)
                  (L.users.row-upsert id f users ∙ ap (λ o. some (f o)) row'),
              keeps r e row' ∙ same,
              drawn,
              before,
            )
        | no ne ↦ (r, i, L.users.row-upsert_ne id j f users ne ∙ row, same, drawn, before)
      ]

  -- A call on the accounts, by its fate.
  deliver_lem :
      {A D : Type 0} (f : Fault) (d d' : D) (r : Result Error A)
      → ((deliver f d (r, d')).1 ≡ d) ⊎ ((deliver f d (r, d')).1 ≡ d')
  unfolding deliver
  deliver_lem delivered d d' r = inr refl
  deliver_lem lost d d' r = inl refl
  deliver_lem late d d' r = inr refl

  -- A write of one row that keeps the addresses of linked accounts, whatever its fate.
  write-IsLinked :
      (id : Uuid) (f : Option User → User) (w w' : World S)
      → ((w'.users ≡ w.users) ⊎ (w'.users ≡ S.users.upsert id f w.users))
      → w'.users_by_email ≡ w.users_by_email
      → w.tick ≤ w'.tick
      → ((email : Text) (r : User)
          → S.users_by_email.row w.users_by_email email ≡ some id
          → S.users.row w.users id ≡ some r
          → (f (some r)).email ≡ r.email)
      → IsLinked S w
      → IsLinked S w'
  write-IsLinked id f w w' (inl users) emails le keeps h = frame-IsLinked w w' users emails le h
  write-IsLinked id f w w' (inr users) emails le keeps h = λ email j e.
      let e' = sym (ap (λ d. S.users_by_email.row d email) emails) ∙ e in
      let (r, i, row, same, drawn, before) =
        upsert-LinksTo id f w.users w.tick email j
          (λ r q.
            keeps email r (subst (λ k. S.users_by_email.row w.users_by_email email ≡ some k) q e'))
          (h email j e') in
      (r, i, ap (λ d. S.users.row d j) users ∙ row, same, drawn, omega arith)

  -- An UPDATE keeps an account where it is, with its address.
  pub update_user-IsLinked :
      (id : Uuid) (f : User → User) (w : World S)
      → ((u : User) → (f u).email ≡ u.email)
      → IsLinked S w
      → IsLinked S (update_user S id f w).1
  unfolding update_user now
  update_user-IsLinked id f w same h =
      write-IsLinked id (λ r. record (f (row_of id r)) { updated_at = S.clock w.tick }) w
        (update_user S id f w).1 (deliver_lem (S.fault (suc w.tick)) w.users _ _) refl (omega arith)
        (λ email r linked row. same r) h

  -- An INSERT of an account whose identifier is not in use.
  pub insert_user-IsLinked :
      (u : User) (w : World S)
      → ((email : Text) → S.users_by_email.row w.users_by_email email ≢ some u.id)
      → IsLinked S w
      → IsLinked S (insert_user S u w).1
  unfolding insert_user
  insert_user-IsLinked u w unused h =
      write-IsLinked u.id (λ _. u) w (insert_user S u w).1
        (deliver_lem (S.fault w.tick) w.users _ _) refl (omega arith)
        (λ email r linked. absurd (unused email linked)) h

  pub insert_user_ok :
      (u : User) (w : World S)
      → (insert_user S u w).0 ≡ ok tt
      → S.users.row (insert_user S u w).1.users u.id ≡ some u
  unfolding insert_user deliver
  insert_user_ok u w h = ground (arith, L.users.row-upsert u.id (λ _. u) w.users)

  -- An INSERT into the lookup table, of an account that is there.
  pub insert_email-IsLinked :
      (email : Text) (id : Uuid) (w : World S)
      → LinksTo S w.users w.tick email id
      → IsLinked S w
      → IsLinked S (insert_email S email id w).1
  unfolding insert_email
  insert_email-IsLinked email id w links h email' j e =
      let emails = w.users_by_email in
      let next_tick : (x : Text) (k : Uuid)
          → LinksTo S w.users w.tick x k
          → LinksTo S w.users (suc w.tick) x k =
        λ x k (r, i, row, same, drawn, before). (r, i, row, same, drawn, omega arith) in
      elim (deliver_lem (S.fault w.tick) emails (S.users_by_email.upsert email (λ _. id) emails)
        (ok tt)) [
          | inl kept ↦
              next_tick email' j
                (h email' j (sym (ap (λ d. S.users_by_email.row d email') kept) ∙ e))
          | inr written ↦
              let e' = sym (ap (λ d. S.users_by_email.row d email') written) ∙ e in
              elim (Bool-cases (text_eq email' email)) [
                | inl same ↦
                    let eq = (text_eq_iff email' email).0 same in
                    let at_email =
                      subst
                        (λ x.
                          S.users_by_email.row (S.users_by_email.upsert email (λ _. id) emails) x
                          ≡ some j)
                        eq e' in
                    let names : id ≡ j =
                      ground
                        (arith, at_email, L.users_by_email.row-upsert email (λ _. id) emails) in
                    subst (LinksTo S w.users (suc w.tick) email') names (
                      subst (λ x. LinksTo S w.users (suc w.tick) x id) (sym eq)
                        (next_tick email id links))
                | inr other ↦ next_tick email' j (
                    h email' j (
                      sym (
                        L.users_by_email.row-upsert_ne email email' (λ _. id) emails
                          (λ q. absurd (ground (arith, q, text_eq_iff email' email))))
                      ∙ e'))
              ]
        ]
