-- ===== src/Settings/Missing.antt =====
-- When the settings load.
use braza_sso.Prelude.{
  ℕ, ◌^◌, ◌<◌, ◌≡◌, ◌≢◌, refl, List, [], ◌∷◌, Text, codes, ok, stop, arith, List-cases, inl, inr,
}
use braza_sso.Go.Fmt.{decimal}
use braza_sso.Go.Fmt.Decimal.{decimal-head}
use braza_sso.Go.Strconv.{ℤ, pos}
use braza_sso.Go.Strconv.Decimal.{atoi-decimal}
use braza_sso.Settings.{Settings, load, settings_of, optional, or_fallback}

-- The names in a list whose variables are unset or empty, in order.
unfoldable pub unset : (Text → Text) → List Text → List Text
unset getenv [] = []
unset getenv (key ∷ keys) = elim (getenv key) [
  | [] ↦ key ∷ unset getenv keys
  | b ∷ v ↦ unset getenv keys
]

abbrev pub required_names : List Text
required_names =
    codes "BASE_URL" ∷ codes "PEPPER" ∷ codes "JWT_PRIVATE_KEY_PATH" ∷ codes "JWT_ISSUER" ∷ []

module _ (getenv : Text → Text) (parse_duration : Text → ℤ) where
  abbrev pub loaded : Settings
  loaded =
      settings_of getenv parse_duration (getenv (codes "BASE_URL")) (getenv (codes "PEPPER"))
        (getenv (codes "JWT_PRIVATE_KEY_PATH")) (getenv (codes "JWT_ISSUER"))

  load_stop :
      {name : Text} {names : List Text}
      → unset getenv required_names ≡ name ∷ names
      → load getenv parse_duration ≡ stop (name ∷ names)
  unfolding load unset
  load_stop h = ground arith

  load_ok : unset getenv required_names ≡ [] → load getenv parse_duration ≡ ok loaded
  unfolding load unset
  load_ok h = ground arith

  or_fallback-nonempty : (v fallback : Text) → fallback ≢ [] → or_fallback v fallback ≢ []
  unfolding or_fallback
  or_fallback-nonempty v fallback h = ground arith

  -- Loading stops with the list of the required names whose variables are unset or empty, in
  -- order, and gives settings where that list is empty.
  pub load_lem :
      load getenv parse_duration
      ≡ elim (unset getenv required_names) [ [] ↦ ok loaded | name ∷ names ↦ stop (name ∷ names) ]
  load_lem = elim (List-cases (unset getenv required_names)) [
    | inl none_missing ↦ rw (load_ok none_missing) (rw none_missing refl)
    | inr (name, names, missing) ↦ rw (load_stop missing) (rw missing refl)
  ]

  load-eq-ok :
      {s : Settings}
      → load getenv parse_duration ≡ ok s
      → (s ≡ loaded) × (unset getenv required_names ≡ [])
  load-eq-ok h = elim (List-cases (unset getenv required_names)) [
    | inl none_missing ↦ ground (arith, load_ok none_missing)
    | inr (name, names, missing) ↦ absurd (ground (arith, load_stop missing))
  ]

  required-nonempty :
      unset getenv required_names ≡ []
      → (getenv (codes "BASE_URL") ≢ [])
        × (getenv (codes "PEPPER") ≢ [])
        × (getenv (codes "JWT_PRIVATE_KEY_PATH") ≢ [])
        × (getenv (codes "JWT_ISSUER") ≢ [])
  unfolding unset
  required-nonempty h = ground arith

  frontend_url-nonempty : getenv (codes "BASE_URL") ≢ [] → loaded.frontend_url ≢ []
  unfolding settings_of
  frontend_url-nonempty h = or_fallback-nonempty (getenv (codes "FRONTEND_URL")) _ h

  -- In settings that load, no address of the service or of its frontend is empty, nor is the
  -- pepper, the path of the key or the issuer.
  pub load-IsComplete :
      {s : Settings}
      → load getenv parse_duration ≡ ok s
      → (s.base_url ≢ [])
        × (s.frontend_url ≢ [])
        × (s.pepper ≢ [])
        × (s.jwt_private_key_path ≢ [])
        × (s.jwt_issuer ≢ [])
  unfolding settings_of
  load-IsComplete h =
      let (e, none_missing) = load-eq-ok h in
      let (base, pepper, path, issuer) = required-nonempty none_missing in
      ground (arith, e, base, pepper, path, issuer, frontend_url-nonempty base)

  or_fallback-decimal : (n : ℕ) (fallback : Text) → or_fallback (decimal n) fallback ≡ decimal n
  unfolding or_fallback
  or_fallback-decimal n fallback = let (d, rest, e, lo, hi) = decimal-head n in ground (arith, e)

  -- The digits of a database or port number are read as that number.
  pub load-numbers :
      (db port : ℕ) {s : Settings}
      → load getenv parse_duration ≡ ok s
      → getenv (codes "REDIS_DB") ≡ decimal db
      → getenv (codes "SMTP_PORT") ≡ decimal port
      → db < 2 ^ 63
      → port < 2 ^ 63
      → (s.redis_db ≡ pos db) × (s.smtp_port ≡ pos port)
  unfolding settings_of optional
  load-numbers db port h d p db_fits port_fits =
      let (e, none_missing) = load-eq-ok h in
      ground (
        arith,
        e,
        d,
        p,
        or_fallback-decimal db (codes "0"),
        or_fallback-decimal port (codes "587"),
        atoi-decimal db db_fits,
        atoi-decimal port port_fits,
      )
