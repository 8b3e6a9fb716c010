-- ===== src/TokenStore/Consume.antt =====
-- What a consumed token leaves behind, for every family of tokens that is read with GETDEL.
use braza_sso.Prelude.{◌≡◌, refl, ◌≢◌, ◌⊎◌, inl, inr, some, Text, ok, arith, text_eq_refl}
use braza_sso.Env.Redis.{RedisLaws}
use braza_sso.Env.Services.{Services, Fault, delivered, lost, late}
use braza_sso.World.{World, deliver}
use braza_sso.TokenStore.{get_del}

pub Fault-cases : (f : Fault) → (f ≡ delivered) ⊎ (f ≡ lost) ⊎ (f ≡ late)
Fault-cases delivered = inl refl
Fault-cases lost = inr (inl refl)
Fault-cases late = inr (inr refl)

module _ (S : Services) (L : RedisLaws S.redis) where
  -- What GETDEL answers was the value of the key, and the key is then gone at any time.
  pub get_del_ok :
      (key : Text) (w : World S) {v : Text}
      → (get_del S key w).0 ≡ ok v
      → (S.redis.value w.redis (S.clock w.tick) key ≡ some v)
        × ((get_del S key w).1.redis ≡ S.redis.del key w.redis)
  unfolding get_del deliver
  get_del_ok key w h = ground arith

  pub get_del_again :
      (key : Text) (w w' : World S) {v : Text}
      → (get_del S key w).0 ≡ ok v
      → w'.redis ≡ (get_del S key w).1.redis
      → (v' : Text) → (get_del S key w').0 ≢ ok v'
  unfolding get_del deliver
  get_del_again key w w' h e v' =
      ground
        (arith, get_del_ok key w h, L.value-del key w.redis (S.clock w'.tick) key, text_eq_refl key)
