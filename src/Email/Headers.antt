-- ===== src/Email/Headers.antt =====
-- How a mail server reads a message.
use braza_sso.Prelude.{
  ℕ, ◌≡◌, ◌∙◌, refl, ap, sym, Bool, true, false, ◌&&◌, List, [], ◌∷◌, ◌++◌, append-nil,
  append_assoc, Text, codes, ◌==◌, if◌then◌else◌, arith,
}
use braza_sso.Email.{SmtpSender, message, envelope_of, recipient, subject, body, line_break}
use braza_sso.World.{Mail, verification, password_reset, account_locked}

-- A line of the head before the rest of it.
abbrev with_line : Text → List Text × Text → List Text × Text
with_line line (lines, rest) = (line ∷ lines, rest)

-- At a line break: an empty line ends the head.
abbrev at_break : Text → List Text × Text → Text → List Text × Text
at_break [] next s = ([], s)
at_break (b ∷ line) next s = with_line (b ∷ line) next

-- The lines up to the first empty one, and what follows that. `line` is the line so far.
unfoldable pub head_from : Text → Text → List Text × Text
head_from line [] = (line ∷ [], [])
head_from line (c ∷ []) = ((line ++ (c ∷ [])) ∷ [], [])
head_from line (c ∷ d ∷ s) =
    let next = head_from [] s in
    let longer = head_from (line ++ (c ∷ [])) (d ∷ s) in
    if (c == 13) && (d == 10) then at_break line next s else longer

-- No carriage return in a text.
unfoldable pub is_one_line : Text → Bool
is_one_line [] = true
is_one_line (c ∷ s) = if c == 13 then false else is_one_line s

-- Characters up to a line break join the line so far.
head_from-line :
    (line s rest : Text)
    → is_one_line s ≡ true
    → head_from line (s ++ (13 ∷ 10 ∷ rest)) ≡ head_from (line ++ s) (13 ∷ 10 ∷ rest)
unfolding head_from is_one_line
head_from-line line [] rest h = ap (λ l. head_from l (13 ∷ 10 ∷ rest)) (sym (append-nil line))
head_from-line line (c ∷ []) rest h = ground arith
head_from-line line (c ∷ d ∷ s) rest h =
    ground
      (arith, head_from-line (line ++ (c ∷ [])) (d ∷ s) rest, append_assoc line (c ∷ []) (d ∷ s))

-- A line that is not empty, and the head that follows it.
head_from-next :
    (b : ℕ) (line rest : Text)
    → is_one_line (b ∷ line) ≡ true
    → head_from [] ((b ∷ line) ++ (13 ∷ 10 ∷ rest)) ≡ with_line (b ∷ line) (head_from [] rest)
unfolding head_from
head_from-next b line rest h = head_from-line [] (b ∷ line) rest h ∙ refl

is_one_line-append :
    (s t : Text) → is_one_line s ≡ true → is_one_line t ≡ true → is_one_line (s ++ t) ≡ true
unfolding is_one_line
is_one_line-append [] t h k = k
is_one_line-append (c ∷ s) t h k = ground (arith, is_one_line-append s t)

subject-is_one_line : (m : Mail) → is_one_line (subject m) ≡ true
unfolding subject is_one_line
subject-is_one_line (verification to url) = refl
subject-is_one_line (password_reset to url) = refl
subject-is_one_line (account_locked to url) = refl

header :
    (b : ℕ) (name v rest : Text)
    → is_one_line (b ∷ name) ≡ true
    → is_one_line v ≡ true
    → head_from [] ((b ∷ name) ++ (v ++ (line_break ++ rest)))
      ≡ with_line ((b ∷ name) ++ v) (head_from [] rest)
header b name v rest h k =
    ap (head_from []) (sym (append_assoc (b ∷ name) v (line_break ++ rest)))
    ∙ head_from-next b (name ++ v) rest (is_one_line-append (b ∷ name) v h k)

abbrev pub headers : Text → Text → Text → List Text
headers from to about =
    (codes "From: " ++ from)
    ∷ (codes "To: " ++ to)
    ∷ (codes "Subject: " ++ about)
    ∷ codes "Content-Type: text/html; charset=UTF-8"
    ∷ []

head_from-blank : (rest : Text) → head_from [] (line_break ++ rest) ≡ ([], rest)
unfolding head_from
head_from-blank rest = refl

head_from-message :
    (from to about text : Text)
    → is_one_line from ≡ true
    → is_one_line to ≡ true
    → is_one_line about ≡ true
    → head_from [] (message from to about text) ≡ (headers from to about, text)
unfolding message is_one_line
head_from-message from to about text f t a =
    let r3 =
      codes "Content-Type: text/html; charset=UTF-8" ++ (line_break ++ (line_break ++ text)) in
    let r2 = codes "Subject: " ++ (about ++ (line_break ++ r3)) in
    let r1 = codes "To: " ++ (to ++ (line_break ++ r2)) in
    header 70 (codes "rom: ") from r1 refl f
    ∙ ap (with_line (codes "From: " ++ from)) (
        header 84 (codes "o: ") to r2 refl t
        ∙ ap (with_line (codes "To: " ++ to)) (
            header 83 (codes "ubject: ") about r3 refl a
            ∙ ap (with_line (codes "Subject: " ++ about)) (
                header 67 (codes "ontent-Type: text/html; charset=UTF-8") [] (line_break ++ text)
                  refl refl
                ∙ ap (with_line (codes "Content-Type: text/html; charset=UTF-8"))
                    (head_from-blank text))))

-- Where neither the sender's nor the recipient's address has a carriage return, each mail is to its
-- recipient alone, and a reader of its text finds the four header lines, with the two addresses
-- and the subject, and after them the whole body: no address and no link adds a header.
pub envelope_of-headers :
    (s : SmtpSender) (m : Mail)
    → is_one_line s.from ≡ true
    → is_one_line (recipient m) ≡ true
    → ((envelope_of s m).to ≡ recipient m ∷ [])
      × (head_from [] (envelope_of s m).msg ≡ (headers s.from (recipient m) (subject m), body m))
unfolding envelope_of
envelope_of-headers s m f t =
    (refl, head_from-message s.from (recipient m) (subject m) (body m) f t (subject-is_one_line m))
