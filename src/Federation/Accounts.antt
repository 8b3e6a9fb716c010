-- ===== src/Federation/Accounts.antt =====
-- Where the account of a sign-in with Google comes from.
use braza_sso.Prelude.{
  suc, ◌≡◌, ◌≢◌, ◌⊎◌, ◌∙◌, ap, refl, stop, true, Bool-cases, some, Text, ok, arith, Result-cases,
  inl, inr,
}
use braza_sso.Env.Services.{Services, ServiceLaws}
use braza_sso.Run.Frames.{find_by_email-IsFramed}
use braza_sso.Federation.{find_or_create_user, refetch, after_create, is_taken}
use braza_sso.Jwt.{Config}
use braza_sso.Model.{User, IdClaims, zero_user}
use braza_sso.User.{find_by_email, find_by_id, lookup_email, create, insert_user, insert_email}
use braza_sso.World.{
  World, Error, email_taken, token_not_found, user_not_found, client_not_found, invalid_hash,
  hash_mismatch, failure, deliver, new_uuid, now,
}

module _ (S : Services) (c : Config) where
  -- The account that is made for the claims, and the state in which it is to be stored, where the
  -- lookup of the address has failed.
  abbrev pub new_account : IdClaims → World S → User
  new_account claims w = record (zero_user (S.new_uuid (find_by_email S claims.email w).1.tick)) {
    email = claims.email;
    email_verified = claims.email_verified;
  }

  abbrev pub missed : IdClaims → World S → World S
  missed claims w = let w1 = (find_by_email S claims.email w).1 in record w1 { tick = suc w1.tick }

  -- An account is in both tables, under its identifier and its address.
  abbrev pub IsStored : User → World S → Type 0
  IsStored u w =
      (row : User) × (S.users.row w.users u.id ≡ some row)
      × (row.email ≡ u.email)
      × (S.users_by_email.row w.users_by_email u.email ≡ some u.id)

  -- Where the account of a sign-in comes from: the lookup of the address, or a new one, which was
  -- stored, or whose creation was refused because the address is taken, and left the tables alone.
  abbrev pub IsAccountOf : IdClaims → World S → User → Type 0
  IsAccountOf claims w u =
      ((find_by_email S claims.email w).0 ≡ ok u)
      ⊎ ((err : Error) × ((find_by_email S claims.email w).0 ≡ stop err)
          × (u ≡ new_account claims w)
          × (IsStored u (create S u (missed claims w)).1
              ⊎ (((create S u (missed claims w)).0 ≡ stop email_taken)
                  × ((create S u (missed claims w)).1.users ≡ w.users)
                  × ((create S u (missed claims w)).1.users_by_email ≡ w.users_by_email))))

  create-taken :
      (u : User) (w : World S)
      → (create S u w).0 ≡ stop email_taken
      → ((create S u w).1.users ≡ w.users) × ((create S u w).1.users_by_email ≡ w.users_by_email)
  unfolding create now insert_user insert_email deliver
  create-taken u w h = elim (Result-cases (find_by_email S u.email w).0) [
    | inl (v, found) ↦ ground (arith, find_by_email-IsFramed S u.email w)
    | inr (err, unknown) ↦ absurd (ground arith)
  ]

  missed-taken :
      (claims : IdClaims) (u : User) (w : World S)
      → (create S u (missed claims w)).0 ≡ stop email_taken
      → ((create S u (missed claims w)).1.users ≡ w.users)
        × ((create S u (missed claims w)).1.users_by_email ≡ w.users_by_email)
  missed-taken claims u w h =
      let (users, emails) = create-taken u (missed claims w) h in
      let (users', emails', le) = find_by_email-IsFramed S claims.email w in
      (users ∙ users', emails ∙ emails')

  module _ (L : ServiceLaws S) where
    create-IsStored :
        (u : User) (w : World S) → (create S u w).0 ≡ ok tt → IsStored u (create S u w).1
    unfolding create now insert_user insert_email deliver
    create-IsStored u w h =
        let w1 = (find_by_email S u.email w).1 in
        let row = record u { created_at = S.clock w1.tick; updated_at = S.clock w1.tick } in
        elim (Result-cases (find_by_email S u.email w).0) [
          | inl (v, found) ↦ absurd (ground arith)
          | inr (err, unknown) ↦ (
            row,
            ground (arith, L.users.row-upsert u.id (λ _. row) w1.users),
            refl,
            ground (arith, L.users_by_email.row-upsert u.email (λ _. u.id) w1.users_by_email),
          )
        ]

  find_by_email-ne-taken :
      (email : Text) (w : World S) → (find_by_email S email w).0 ≢ stop email_taken
  unfolding find_by_email lookup_email find_by_id deliver
  find_by_email-ne-taken email w h = ground arith

  taken_error : (e : Error) → is_taken e ≡ true → e ≡ email_taken
  taken_error email_taken h = refl
  taken_error token_not_found h = absurd (ground arith)
  taken_error user_not_found h = absurd (ground arith)
  taken_error client_not_found h = absurd (ground arith)
  taken_error invalid_hash h = absurd (ground arith)
  taken_error hash_mismatch h = absurd (ground arith)
  taken_error failure h = absurd (ground arith)

  refetch-untaken :
      (u : User) (err : Error) (w v : World S)
      → (find_by_email S u.email v).0 ≡ stop err
      → refetch S c u err w ≡ (ok u, w)
  unfolding refetch
  refetch-untaken u email_taken w v h = absurd (find_by_email-ne-taken u.email v h)
  refetch-untaken u token_not_found w v h = refl
  refetch-untaken u user_not_found w v h = refl
  refetch-untaken u client_not_found w v h = refl
  refetch-untaken u invalid_hash w v h = refl
  refetch-untaken u hash_mismatch w v h = refl
  refetch-untaken u failure w v h = refl

  -- An account that is found or created comes from one of these.
  pub find_or_create_user_ok :
      (L : ServiceLaws S) (claims : IdClaims) (w : World S) {u' : User}
      → (find_or_create_user S c claims w).0 ≡ ok u'
      → IsAccountOf claims w u'
  unfolding find_or_create_user after_create new_uuid
  find_or_create_user_ok L claims w {u'} h =
      let u = new_account claims w in
      let created = create S u (missed claims w) in
      elim (Result-cases (find_by_email S claims.email w).0) [
        | inl (v, found) ↦ inl (ground arith)
        | inr (err, unknown) ↦ elim (Result-cases created.0) [
          | inl (x, done) ↦
              let same : u' ≡ u = ground (arith, refetch-untaken u err created.1 w unknown) in
              inr (err, unknown, same, inl (rw same (create-IsStored L u (missed claims w) done)))
          | inr (e, failed) ↦ elim (Bool-cases (is_taken e)) [
            | inl taken ↦
                let same : u' ≡ u = ground (arith, refetch-untaken u err created.1 w unknown) in
                let refused = failed ∙ ap stop (taken_error e taken) in
                let (users, emails) = missed-taken claims u w refused in
                inr (err, unknown, same, inr (rw same (refused, users, emails)))
            | inr other ↦ absurd (ground arith)
          ]
        ]
      ]
