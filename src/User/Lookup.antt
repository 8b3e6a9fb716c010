-- ===== src/User/Lookup.antt =====
-- The lookup of an account after its creation.
use braza_sso.Prelude.{ℕ, suc, ◌≡◌, none, ok, arith}
use braza_sso.Env.Services.{Services, ServiceLaws, delivered}
use braza_sso.Model.{User}
use braza_sso.User.{create, find_by_email}
use braza_sso.World.{World, now, deliver}

module _ (S : Services) (L : ServiceLaws S) (reliable : (tick : ℕ) → S.fault tick ≡ delivered) where
  -- Where every call is answered and the address has no entry, creating an account succeeds, and
  -- the address then leads to that account, with the time of its creation.
  pub create-find_by_email :
      (u : User) (w : World S)
      → S.users_by_email.row w.users_by_email u.email ≡ none
      → let w' = (create S u w).1 in
        ((create S u w).0 ≡ ok tt)
        × ((find_by_email S u.email w').0
            ≡ ok
                (record u { created_at = S.clock (suc w.tick); updated_at = S.clock (suc w.tick) }))
  unfolding create find_by_email now deliver
  create-find_by_email u w fresh = ground (
    arith,
    reliable w.tick,
    reliable (suc (suc w.tick)),
    reliable (suc (suc (suc w.tick))),
    reliable (suc (suc (suc (suc w.tick)))),
    reliable (suc (suc (suc (suc (suc w.tick))))),
    L.users_by_email.row-upsert u.email (λ _. u.id) w.users_by_email,
    L.users.row-upsert u.id
        (λ _. record u { created_at = S.clock (suc w.tick); updated_at = S.clock (suc w.tick) })
        w.users,
  )
