-- ===== src/Run/Once/Spends.antt =====
-- Computations that read a key with GETDEL, and what they leave of it.
use braza_sso.Prelude.{
  ℕ, ◌≤◌, ◌≡◌, Bool, false, some, Text, ok, M, subst, sym, stop_if, or_stop, or_else, ◌>>=◌,
  >>=-inv, arith,
}
use braza_sso.Env.Services.{Services, ServiceLaws}
use braza_sso.Run.{Runs}
use braza_sso.Run.Combine.{or_else_state}
use braza_sso.Run.Once.{get_del-unset}
use braza_sso.Run.Over.Steps.{IsUnwritten, IsStable, Over, Run-Over}
use braza_sso.Run.Ticks.{Run-tick}
use braza_sso.TokenStore.{get_del}
use braza_sso.World.{World}

module _ (S : Services) (L : ServiceLaws S) (n : ℕ) (K : Text) (unwritten : IsUnwritten S n K)
    (keeps : IsStable S L n K 0 unwritten) where
  -- The key is unset from now on, and the clock of draws stands at n or later.
  abbrev pub IsSpent : World S → Type 0
  IsSpent w = Over S L n K 0 unwritten w × (n ≤ w.tick)

  -- Where the key can be read, it is unset afterwards.
  unfoldable pub Spends : {E A : Type 0} → M (World S) E A → Type 0
  Spends m = (w : World S) (v : Text) → n ≤ w.tick → (get_del S K w).0 ≡ ok v → IsSpent (m w).1

  pub get_del-Spends : Spends (get_del S K)
  unfolding Spends get_del
  get_del-Spends w v le h = (λ u le. get_del-unset S L n K w u h, ground arith)

  pub or_else-Spends :
      {E X A : Type 0} (m : M (World S) E A) (x : X) → Spends m → Spends (or_else m x)
  unfolding Spends
  or_else-Spends m x h w v le e = subst IsSpent (sym (or_else_state S n m x w)) (h w v le e)

  pub >>=-Spends :
      {E A B : Type 0} (m : M (World S) E A) (f : A → M (World S) E B)
      → Spends m
      → ((a : A) → Runs S n (f a))
      → Spends (m >>= f)
  unfolding Spends Runs
  >>=-Spends m f h runs w v le e =
      let (over, tick) = h w v le e in
      >>=-inv IsSpent m f w (over, tick)
        (λ a _.
          let run = runs a (m w).1 tick in
          let later = Run-tick S run in (Run-Over S L n K 0 unwritten keeps run over, omega arith))

  -- A guard that does not hold.
  pub stop_if->>=-Spends :
      {E B : Type 0} (b : Bool) (e : E) (f : Unit {0} → M (World S) E B)
      → b ≡ false
      → Spends (f tt)
      → Spends (stop_if b e >>= f)
  unfolding Spends
  stop_if->>=-Spends b e f h spends w v le there = rw h (spends w v le there)

  pub or_stop->>=-Spends :
      {E A B : Type 0} (a : A) (e : E) (f : A → M (World S) E B)
      → Spends (f a)
      → Spends (or_stop (some a) e >>= f)
  unfolding Spends
  or_stop->>=-Spends a e f spends w v le there = spends w v le there

pub ruleset spends =
    (get_del-Spends, or_else-Spends, >>=-Spends, stop_if->>=-Spends, or_stop->>=-Spends)
