-- ===== src/Run/Combine.antt =====
-- Runs in sequence, and the combinators of computations.
use braza_sso.Prelude.{
  ℕ, suc, ◌≤◌, refl, Text, ◌≡◌, sym, subst, Bool, true, false, Option, none, some, Result, ok, stop,
  M, pure, leave, stop_if, or_stop, choose, on_result, on_option, ◌>>=◌, or_else, attempt, >>=-inv,
  arith,
}
use braza_sso.Env.Services.{Services}
use braza_sso.Run.{Run, Runs, drawn, here, next, elapse}
use braza_sso.Run.Ticks.{Run-tick}
use braza_sso.TokenStore.{random_token}
use braza_sso.World.{World, random_bytes}

module _ (S : Services) (n : ℕ) where
  pub Run-trans : {u v w : World S} → Run S n u v → Run S n v w → Run S n u w
  Run-trans r here = r
  Run-trans r (next s a) = next (Run-trans r s) a

  pub pure-Runs : (E : Type 0) {A : Type 0} (a : A) → Runs S n (pure {W = World S} {E = E} a)
  unfolding Runs
  pure-Runs E a w le = here

  pub leave-Runs :
      {E : Type 0} (A : Type 0) (e : E) → Runs S n (leave {W = World S} {E = E} {A = A} e)
  unfolding Runs
  leave-Runs A e w le = here

  pub stop_if-Runs : {E : Type 0} (b : Bool) (e : E) → Runs S n (stop_if {W = World S} b e)
  unfolding Runs
  stop_if-Runs b e w le = here

  pub or_stop-Runs : {E A : Type 0} (o : Option A) (e : E) → Runs S n (or_stop {W = World S} o e)
  unfolding Runs
  or_stop-Runs none e w le = here
  or_stop-Runs (some a) e w le = here

  pub >>=-Runs :
      {E A B : Type 0} (m : M (World S) E A) (f : A → M (World S) E B)
      → Runs S n m
      → ((a : A) → Runs S n (f a))
      → Runs S n (m >>= f)
  unfolding Runs
  >>=-Runs m f hm hf w le =
      let first = hm w le in
      let ticks = Run-tick S first in
      >>=-inv (Run S n w) m f w first (λ a e. Run-trans first (hf a (m w).1 (omega arith)))

  -- A token is drawn: what follows is run with one that was drawn at tick n or later.
  pub random_token->>=-Runs :
      {E B : Type 0} (size : ℕ) (f : Text → M (World S) E B)
      → ((i : ℕ) → n ≤ i → Runs S n (f (drawn S i size)))
      → Runs S n (random_token S size >>= f)
  unfolding Runs random_token drawn
  random_token->>=-Runs size f h w le =
      let drawing =
        next here (elapse w (record w { tick = suc w.tick }) refl refl refl (omega arith)) in
      Run-trans drawing (h w.tick le (record w { tick = suc w.tick }) (omega arith))

  pub random_bytes->>=-Runs :
      {E B : Type 0} (size : ℕ) (f : Text → M (World S) E B)
      → ((i : ℕ) → n ≤ i → Runs S n (f (S.random i size)))
      → Runs S n (random_bytes S size >>= f)
  unfolding Runs random_bytes
  random_bytes->>=-Runs size f h w le =
      let drawing =
        next here (elapse w (record w { tick = suc w.tick }) refl refl refl (omega arith)) in
      Run-trans drawing (h w.tick le (record w { tick = suc w.tick }) (omega arith))

  pub or_else_state :
      {E X A : Type 0} (m : M (World S) E A) (x : X) (w : World S) → (or_else m x w).1 ≡ (m w).1
  or_else_state m x w = ground arith

  pub or_else-Runs :
      {E X A : Type 0} (m : M (World S) E A) (x : X) → Runs S n m → Runs S n (or_else m x)
  unfolding Runs
  or_else-Runs m x h w le = subst (Run S n w) (sym (or_else_state m x w)) (h w le)

  pub attempt-Runs :
      {E : Type 0} (X : Type 0) {A : Type 0} (m : M (World S) E A)
      → Runs S n m
      → Runs S n (attempt {X = X} m)
  unfolding Runs
  attempt-Runs X m h w le = h w le

  pub choose-Runs :
      {E A : Type 0} (b : Bool) (m k : M (World S) E A)
      → Runs S n m
      → Runs S n k
      → Runs S n (choose b m k)
  unfolding Runs
  choose-Runs true m k hm hk w le = hm w le
  choose-Runs false m k hm hk w le = hk w le

  pub on_result-Runs :
      {F E A B : Type 0} (r : Result F A) (f : A → M (World S) E B) (g : F → M (World S) E B)
      → ((a : A) → Runs S n (f a))
      → ((e : F) → Runs S n (g e))
      → Runs S n (on_result r f g)
  unfolding Runs
  on_result-Runs (ok a) f g hf hg w le = hf a w le
  on_result-Runs (stop e) f g hf hg w le = hg e w le

  pub on_option-Runs :
      {E A B : Type 0} (o : Option A) (m : M (World S) E B) (f : A → M (World S) E B)
      → Runs S n m
      → ((a : A) → Runs S n (f a))
      → Runs S n (on_option o m f)
  unfolding Runs
  on_option-Runs none m f hm hf w le = hm w le
  on_option-Runs (some a) m f hm hf w le = hf a w le

pub ruleset runs = (
  random_token->>=-Runs, random_bytes->>=-Runs, pure-Runs, leave-Runs, stop_if-Runs, or_stop-Runs,
  >>=-Runs, or_else-Runs, attempt-Runs, choose-Runs, on_result-Runs, on_option-Runs,
)
