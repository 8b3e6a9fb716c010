-- ===== src/Tests/Tools.antt =====
-- The theorems on the settings, the tool that adds a client, and the mails, applied.
use braza_sso.Prelude.{
  ℕ, ◌≡◌, ◌++◌, refl, Option, some, [], ◌∷◌, Text, codes, text_eq, ok, stop, arith, if◌then◌else◌,
}
use braza_sso.Email
use braza_sso.Email.Headers
use braza_sso.Go.Strconv.{pos}
use braza_sso.Oauth.Clients.{find_client}
use braza_sso.Oauth.Handlers.{TokenForm, handle_client_credentials, oauth_error}
use braza_sso.RegisterClient
use braza_sso.RegisterClient.Registered
use braza_sso.Settings.{load}
use braza_sso.Settings.Missing
use braza_sso.Tests.{services, laws, config, start, address}
use braza_sso.World.{World, Mail, verification}

-- An environment with a value for each required variable but one.
abbrev without_pepper : Text → Text
without_pepper name = if text_eq name (codes "PEPPER") then [] else codes "x"

load_lem_example : load without_pepper (λ t. pos 0) ≡ stop (codes "PEPPER" ∷ [])
unfolding Missing.unset text_eq
load_lem_example = Missing.load_lem without_pepper (λ t. pos 0)

abbrev flags : RegisterClient.Flags
flags = record RegisterClient.default_flags {
  name = codes "App";
  redirect_uris = codes "https://a/cb, https://b/cb";
}

abbrev bcrypt : ℕ → Text → Option Text
bcrypt i password = some (codes "$2a$10$" ++ password)

abbrev registered : World services
registered =
    (RegisterClient.register_client services (λ v. []) bcrypt (λ cluster attempt. some tt) flags
      start).1

abbrev printed : RegisterClient.Printed
printed = record { client_id = 2 ∷ []; client_secret = braza_sso.Go.Fmt.hex (services.random 0 32) }

register_client-find_client_example :
    (h : Text) × (bcrypt 1 printed.client_secret ≡ some h)
    × ((find_client services printed.client_id registered).0
        ≡ ok (RegisterClient.client_of flags printed.client_id h))
unfolding RegisterClient.register_client braza_sso.World.deliver
register_client-find_client_example =
    Registered.register_client-find_client services laws (λ v. []) bcrypt
      (λ cluster attempt. some tt) flags start registered {p = printed} refl refl refl

abbrev credentials : TokenForm
credentials = record {
  grant_type = codes "client_credentials";
  code = [];
  redirect_uri = [];
  client_id = printed.client_id;
  code_verifier = [];
  client_secret = printed.client_secret;
}

some-is_bcrypt :
    (i : ℕ) (password h : Text)
    → bcrypt i password ≡ some h
    → (s : Text) × (h ≡ codes "$2a$10$" ++ s)
some-is_bcrypt i password h e = (password, ground arith)

register_client-refused_example :
    (handle_client_credentials services config credentials registered).0
    ≡ stop (oauth_error "invalid_client" 401)
unfolding RegisterClient.register_client braza_sso.World.deliver
register_client-refused_example =
    Registered.register_client-refused services laws (λ v. []) bcrypt (λ cluster attempt. some tt)
      config flags credentials start registered {p = printed} some-is_bcrypt refl refl refl refl

abbrev mail_sender : Email.SmtpSender
mail_sender = record {
  host = codes "smtp";
  port = pos 25;
  user = [];
  pass = [];
  from = codes "noreply@sso";
}

abbrev mail : Mail
mail = verification address (codes "https://sso/auth/verify-email?token=t")

envelope_of-headers_example :
    ((Email.envelope_of mail_sender mail).to ≡ address ∷ [])
    × (Headers.head_from [] (Email.envelope_of mail_sender mail).msg
        ≡ (Headers.headers (codes "noreply@sso") address (Email.subject mail), Email.body mail))
unfolding Headers.is_one_line Email.recipient
envelope_of-headers_example = Headers.envelope_of-headers mail_sender mail refl refl
