-- ===== src/Prelude/Outcome.antt =====
-- A computation on a state that returns a value or stops early. For a Go function the early exit
-- is the error it returns; for a handler it is the response already written.
use mathlib.Core.Path.{◌≡◌, refl}
use mathlib.Core.Logic.{◌⊎◌, inl, inr}
use mathlib.Core.Bool.{Bool, true, false}
use native.Mathlib.Omega.{arith}
use mathlib.Core.Option.{Option, none, some}
use braza_sso.Prelude.Tests.{if◌then◌else◌}

pub data Result (E A : Type 0) : Type 0 where
  ok : A → Result E A
  stop : E → Result E A

abbrev pub M : Type 0 → Type 0 → Type 0 → Type 0
M W E A = W → Result E A × W

module _ {W E : Type 0} where
  abbrev pub pure : {A : Type 0} → A → M W E A
  pure a w = (ok a, w)

  abbrev pub leave : {A : Type 0} → E → M W E A
  leave e w = (stop e, w)

  abbrev pub stop_if : Bool → E → M W E (Unit {0})
  stop_if b e w = (if b then stop e else ok tt, w)

  abbrev pub or_stop : {A : Type 0} → Option A → E → M W E A
  or_stop none e w = (stop e, w)
  or_stop (some a) e w = (ok a, w)

  -- Branches: on a test, on a result, and on an optional value.
  abbrev pub choose : {A : Type 0} → Bool → M W E A → M W E A → M W E A
  choose b m k w = elim b [ true ↦ m w | false ↦ k w ]

  abbrev pub on_result : {F A B : Type 0} → Result F A → (A → M W E B) → (F → M W E B) → M W E B
  on_result r f g w = elim r [ ok a ↦ f a w | stop e ↦ g e w ]

  abbrev pub on_option : {A B : Type 0} → Option A → M W E B → (A → M W E B) → M W E B
  on_option o m f w = elim o [ none ↦ m w | some a ↦ f a w ]

  abbrev pub modify : (W → W) → M W E (Unit {0})
  modify f w = (ok tt, f w)

  abbrev pub gets : {A : Type 0} → (W → A) → M W E A
  gets f w = (ok (f w), w)

infixl 5 ◌>>=◌ ◌>>◌
abbrev pub ◌>>=◌ : {W E A B : Type 0} → M W E A → (A → M W E B) → M W E B
◌>>=◌ m f w = let (r, w') = m w in elim r [ ok a ↦ f a w' | stop e ↦ (stop e, w') ]

abbrev pub ◌>>◌ : {W E A B : Type 0} → M W E A → M W E B → M W E B
m >> k = m >>= λ _. k

-- `if err != nil { write the response; return }`
abbrev pub or_else : {W E X A : Type 0} → M W E A → X → M W X A
or_else m x w = let (r, w') = m w in elim r [ ok a ↦ (ok a, w') | stop e ↦ (stop x, w') ]

-- The caller inspects the error itself.
abbrev pub attempt : {W E X A : Type 0} → M W E A → M W X (Result E A)
attempt m w = let (r, w') = m w in (ok r, w')

pub Result-cases :
    {E A : Type 0} (r : Result E A) → ((a : A) × (r ≡ ok a)) ⊎ ((e : E) × (r ≡ stop e))
Result-cases (ok a) = inl (a, refl)
Result-cases (stop e) = inr (e, refl)

-- Inversion of a computation that returns a value: each of its parts has returned one.
module _ {W E : Type 0} where
  pub >>=-eq-ok :
      {A B : Type 0} (m : M W E A) (f : A → M W E B) (w : W) {b : B}
      → ((m >>= f) w).0 ≡ ok b
      → (a : A) × ((m w).0 ≡ ok a) × ((f a (m w).1).0 ≡ ok b)
  >>=-eq-ok m f w h = ground arith

  pub or_else-eq-ok :
      {X A : Type 0} (m : M W E A) (x : X) (w : W) {a : A}
      → (or_else m x w).0 ≡ ok a
      → (m w).0 ≡ ok a
  or_else-eq-ok m x w h = ground arith

-- What holds after the first part, and after the second wherever that runs, holds at the end.
pub >>=-inv :
    {W E A B : Type 0} (P : W → Type 0) (m : M W E A) (f : A → M W E B) (w : W)
    → P (m w).1
    → ((a : A) → (m w).0 ≡ ok a → P (f a (m w).1).1)
    → P ((m >>= f) w).1
>>=-inv {W} {E} {A} {B} P m f w h k = go (m w).0 (m w).1 h k
  where
    go :
        (r : Result E A) (w' : W)
        → P w'
        → ((a : A) → r ≡ ok a → P (f a w').1)
        → let m' : M W E A = λ v. (r, v) in P ((m' >>= f) w').1
    go (ok a) w' h' k' = k' a refl
    go (stop e) w' h' k' = h'
