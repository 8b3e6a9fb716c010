-- ===== src/Oauth/Consents.antt =====
-- What a consent covers: scopes that were stored, and no other client's.
use braza_sso.Prelude.{
  suc, ◌≡◌, ◌↔◌, Bool, true, false, refl, ◌&&◌, some, List, [], ◌∷◌, Text, text_eq, text_eq_iff,
  text_eq_refl, contains, Bool-cases, inl, inr, ok, arith, if◌then◌else◌,
}
use braza_sso.Model.{Uuid, Consent}
use braza_sso.Env.Services.{Services, ServiceLaws, delivered}
use braza_sso.Oauth.Clients.{granted, put_consent, covers, has_consent, store_consent, rows}
use braza_sso.World.{World, now, deliver}

-- The loop over the requested scopes answers true exactly if each of them is a granted one.
pub covers_iff :
    (gs ss : List Text)
    → (covers gs ss ≡ true) ↔ ((s : Text) → contains ss s ≡ true → contains gs s ≡ true)
unfolding covers contains
covers_iff gs [] = ground arith
covers_iff gs (x ∷ ss) =
    let (to, from) = covers_iff gs ss in
    (
      λ h s m. elim (Bool-cases (text_eq x s)) [
        | inl same ↦ ground (arith, text_eq_iff x s)
        | inr other ↦ to (ground arith) s (ground arith)
      ],
      λ h. ground (
        arith,
        from (λ s m. h s (ground (arith, text_eq_iff x s))),
        h x (ground (arith, text_eq_refl x)),
      ),
    )

pub granted-put_consent :
    (client_id : Text) (scopes : List Text) (l : List Consent)
    → granted client_id (put_consent client_id scopes l) ≡ some scopes
unfolding granted put_consent
granted-put_consent client_id scopes [] = ground (arith, text_eq_refl client_id)
granted-put_consent client_id scopes (row ∷ l) =
    ground (arith, granted-put_consent client_id scopes l, text_eq_refl client_id)

pub granted-put_consent_ne :
    (client_id other : Text) (scopes : List Text) (l : List Consent)
    → text_eq client_id other ≡ false
    → granted other (put_consent client_id scopes l) ≡ granted other l
unfolding granted put_consent
granted-put_consent_ne client_id other scopes [] ne = ground arith
granted-put_consent_ne client_id other scopes (row ∷ l) ne = ground (
  arith,
  granted-put_consent_ne client_id other scopes l ne,
  text_eq_iff row.client_id client_id,
  text_eq_iff client_id other,
  text_eq_iff row.client_id other,
)

-- Whether every scope of a list is among others.
abbrev pub all_in : List Text → List Text → Bool
all_in scopes [] = true
all_in scopes (s ∷ asked) = contains scopes s && all_in scopes asked

covers-all_in : (scopes asked : List Text) → covers scopes asked ≡ all_in scopes asked
unfolding covers
covers-all_in scopes [] = refl
covers-all_in scopes (s ∷ asked) = ground (arith, covers-all_in scopes asked)

module _ (S : Services) (L : ServiceLaws S) where
  -- Once a consent is stored, with its calls answered, the user has consented for that client to
  -- exactly the lists of scopes whose every scope was stored; for any other client the answer is
  -- unchanged.
  pub store_consent-has_consent :
      (id : Uuid) (client_id other : Text) (scopes asked : List Text) (w : World S)
      → S.fault w.tick ≡ delivered
      → S.fault (suc w.tick) ≡ delivered
      → S.fault (suc (suc w.tick)) ≡ delivered
      → (has_consent S id other asked (store_consent S id client_id scopes w).1).0 ≡ (
          if text_eq client_id other
          then ok (all_in scopes asked)
          else (has_consent S id other asked w).0)
  unfolding store_consent has_consent now deliver
  store_consent-has_consent id client_id other scopes asked w f0 f1 f2 = ground (
    arith,
    L.consents.row-upsert id (λ r. put_consent client_id scopes (rows r)) w.consents,
    granted-put_consent client_id scopes (rows (S.consents.row w.consents id)),
    granted-put_consent_ne client_id other scopes (rows (S.consents.row w.consents id)),
    text_eq_iff client_id other,
    covers-all_in scopes asked,
  )
