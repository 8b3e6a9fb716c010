-- ===== src/Email.antt =====
-- internal/email/email.go: the messages that the service sends, as they are given to
-- `smtp.SendMail`.
pub mod Headers
use braza_sso.Prelude.{ℕ, suc, Option, none, some, List, [], ◌∷◌, ◌++◌, Text, codes}
use braza_sso.Go.Fmt.{decimal}
use braza_sso.Go.Strconv.{ℤ, pos, negsuc}
use braza_sso.World.{Mail, verification, password_reset, account_locked}

pub record SmtpSender : Type 0 where
  pub host : Text
  pub port : ℤ
  pub user : Text
  pub pass : Text
  pub from : Text

unfoldable pub new_smtp_sender : Text → ℤ → Text → Text → Text → SmtpSender
new_smtp_sender host port user pass from = record {
  host = host;
  port = port;
  user = user;
  pass = pass;
  from = from;
}

-- The arguments of `smtp.SendMail`: `auth` is the user, password and host of `PlainAuth`.
pub record Envelope : Type 0 where
  pub addr : Text
  pub auth : Option (Text × Text × Text)
  pub from : Text
  pub to : List Text
  pub msg : Text

abbrev pub line_break : Text
line_break = 13 ∷ 10 ∷ []

abbrev new_line : Text
new_line = 10 ∷ []

-- `%d` of an int
abbrev signed : ℤ → Text
signed (pos n) = decimal n
signed (negsuc n) = b'-' ∷ decimal (suc n)

unfoldable pub message : Text → Text → Text → Text → Text
message from to subject body =
    codes "From: "
    ++ (from
        ++ (line_break
            ++ (codes "To: "
                ++ (to
                    ++ (line_break
                        ++ (codes "Subject: "
                            ++ (subject
                                ++ (line_break
                                    ++ (codes "Content-Type: text/html; charset=UTF-8"
                                        ++ (line_break ++ (line_break ++ body)))))))))))

abbrev auth_of : SmtpSender → Option (Text × Text × Text)
auth_of s = elim s.user [ [] ↦ none | b ∷ u ↦ some (s.user, s.pass, s.host) ]

-- `send`, up to the call of `smtp.SendMail`
unfoldable pub envelope : SmtpSender → Text → Text → Text → Envelope
unfolding message decimal
envelope s to subject body = record {
  addr = s.host ++ (codes ":" ++ signed s.port);
  auth = auth_of s;
  from = s.from;
  to = to ∷ [];
  msg = message s.from to subject body;
}

-- The addressee, the subject and the body of each mail.
unfoldable pub recipient : Mail → Text
recipient (verification to url) = to
recipient (password_reset to url) = to
recipient (account_locked to url) = to

unfoldable pub subject : Mail → Text
subject (verification to url) = codes "Verify your Braza SSO email"
subject (password_reset to url) = codes "Reset your Braza SSO password"
subject (account_locked to url) = codes "Braza SSO account locked"

unfoldable pub body : Mail → Text
body (verification to url) =
    codes "<p>Verify your email address by clicking the link below:</p>"
    ++ (new_line
        ++ (codes "<p><a href=\""
            ++ (url
                ++ (codes "\">Verify Email</a></p>"
                    ++ (new_line ++ (codes "<p>This link expires in 24 hours.</p>"))))))
body (password_reset to url) =
    codes "<p>Reset your password by clicking the link below:</p>"
    ++ (new_line
        ++ (codes "<p><a href=\""
            ++ (url
                ++ (codes "\">Reset Password</a></p>"
                    ++ (new_line
                        ++ (codes
                            "<p>This link expires in 1 hour. If you did not request a reset, ignore this email.</p>"))))))
body (account_locked to url) =
    codes "<p>Your account has been temporarily locked due to multiple failed login attempts.</p>"
    ++ (new_line
        ++ (codes "<p>It will unlock automatically in 30 minutes, or you can <a href=\""
            ++ (url ++ (codes "\">request an unlock</a>.</p>"))))

-- `SendVerification`, `SendPasswordReset` and `SendAccountLocked`
unfoldable pub envelope_of : SmtpSender → Mail → Envelope
unfolding envelope recipient subject body
envelope_of s m = envelope s (recipient m) (subject m) (body m)
