-- ===== src/Env/Memory.antt =====
-- The services as functions in memory: an instance that meets all the laws. The cryptographic
-- functions are toys; a UUID's text is one character.
use braza_sso.Prelude.{
  ℕ, zero, suc, ◌+◌, ◌*◌, ◌%◌, ◌≡◌, refl, ◌≢◌, ◌≤◌, Bool, true, false, ◌&&◌, ◌||◌, Option, none,
  some, List, [], ◌∷◌, ◌++◌, Text, codes, text_eq, text_eq_refl, text_eq_iff, text_eq_ne, contains,
  ltb, leb, ◌==◌, if◌then◌else◌, arith,
}
use braza_sso.Model.{Uuid, AuthCodeMeta}
use braza_sso.Env.Redis.{Redis, RedisLaws}
use braza_sso.Env.Table.{Table, TableLaws}
use braza_sso.Env.Services.{Services, ServiceLaws, Fault}

pub record Store : Type 0 where
  pub strings : Text → Option (Text × Option ℕ)
  pub sets : Text → List Text
  pub counts : Text → ℕ × Option ℕ

abbrev pub empty_store : Store
empty_store = record { strings = λ _. none; sets = λ _. []; counts = λ _. (0, none) }

abbrev live : ℕ → Option (Text × Option ℕ) → Option Text
live t none = none
live t (some (v, none)) = some v
live t (some (v, some end)) = if ltb t end then some v else none

abbrev live_count : ℕ → ℕ × Option ℕ → ℕ
live_count t (n, none) = n
live_count t (n, some end) = if ltb t end then n else 0

abbrev live_end : ℕ → Option ℕ → Option ℕ
live_end t none = none
live_end t (some end) = if ltb t end then some end else none

abbrev without : Text → List Text → List Text
without m [] = []
without m (x ∷ l) = let rest = without m l in if text_eq m x then rest else x ∷ rest

abbrev pub memory_redis : Redis
memory_redis = record {
  Db = Store;
  value = λ d t k. live t (d.strings k);
  elements = λ d k. d.sets k;
  count = λ d t k. live_count t (d.counts k);
  set = λ t k v ttl d. record d {
    strings = λ j.
        if text_eq j k then some (v, if ttl == 0 then none else some (t + ttl)) else d.strings j;
  };
  del = λ k d. record {
    strings = λ j. if text_eq j k then none else d.strings j;
    sets = λ j. if text_eq j k then [] else d.sets j;
    counts = λ j. if text_eq j k then (0, none) else d.counts j;
  };
  sadd = λ k m d. record d { sets = λ j. if text_eq j k then m ∷ d.sets j else d.sets j };
  srem = λ k m d. record d { sets = λ j. if text_eq j k then without m (d.sets j) else d.sets j };
  incr = λ t k d. record d {
    counts = λ j.
        if text_eq j k
        then (suc (live_count t (d.counts j)), live_end t (d.counts j).1)
        else d.counts j;
  };
  expire = λ t k w d. record d {
    counts = λ j. if text_eq j k then (live_count t (d.counts j), some (t + w)) else d.counts j;
  };
}

contains-without :
    (m : Text) (l : List Text) (x : Text)
    → contains (without m l) x ≡ (if text_eq m x then false else contains l x)
unfolding contains
contains-without m [] x = ground arith
contains-without m (y ∷ l) x =
    ground (arith, contains-without m l x, text_eq_iff m y, text_eq_iff m x, text_eq_iff y x)

live_count-incr :
    (t : ℕ) (c : ℕ × Option ℕ)
    → live_count t (suc (live_count t c), live_end t c.1) ≡ suc (live_count t c)
live_count-incr t (n, none) = refl
live_count-incr t (n, some end) = ground arith

elements-srem_memory :
    (k m : Text) (d : Store) (j x : Text)
    → contains (memory_redis.elements (memory_redis.srem k m d) j) x ≡ (
        if text_eq j k
        then (if text_eq m x then false else contains (d.sets j) x)
        else contains (d.sets j) x)
elements-srem_memory k m d j x = ground (arith, contains-without m (d.sets j) x)

pub memory_redis-laws : RedisLaws memory_redis
unfolding contains
memory_redis-laws = record {
  value-set = λ t k v ttl d u j le. ground arith;
  value-del = λ k d u j. ground arith;
  value-sadd = λ k m d u j ne. refl;
  value-srem = λ k m d u j ne. refl;
  value-incr = λ t k d u j ne. refl;
  value-expire = λ t k w d u j ne. refl;
  elements-set = λ t k v ttl d j ne. refl;
  elements-del = λ k d j. refl;
  elements-sadd = λ k m d j x. ground arith;
  elements-srem = elements-srem_memory;
  elements-incr = λ t k d j ne. refl;
  elements-expire = λ t k w d j ne. refl;
  count-incr = λ t k d. ground (arith, text_eq_refl k, live_count-incr t (d.counts k));
  count-expire = λ t k w d u le. ground (arith, text_eq_refl k);
  count-del = λ k d u. ground (arith, text_eq_refl k);
}

-- A table over keys whose equality is tested by a function.
abbrev pub memory_table : {K V : Type 0} → (K → K → Bool) → Table K V
memory_table {K} {V} eq = record {
  Db = K → Option V;
  row = λ d k. d k;
  upsert = λ k f d j. if eq j k then some (f (d k)) else d j;
}

pub memory_table-laws :
    {K V : Type 0} (eq : K → K → Bool)
    → ((k : K) → eq k k ≡ true)
    → ((j k : K) → j ≢ k → eq j k ≡ false)
    → TableLaws (memory_table {K = K} {V = V} eq)
memory_table-laws eq same differ = record {
  row-upsert = λ k f d. ground (arith, same k);
  row-upsert_ne = λ k j f d ne. ground (arith, differ j k ne);
}

abbrev pub replicate : ℕ → ℕ → Text
replicate zero b = []
replicate (suc n) b = b ∷ replicate n b

abbrev one_code : Text → Option Uuid
one_code (id ∷ []) = some id
one_code _ = none

abbrev nat_eq : ℕ → ℕ → Bool
nat_eq a b = a == b

-- A hash that depends on the whole input.
abbrev pub digest : Text → ℕ
digest [] = 7
digest (b ∷ s) = (b + 31 * digest s) % 256

abbrev pub toy_meta : Text → Option AuthCodeMeta
toy_meta s = some (record {
  user_id = 1 ∷ [];
  client_id = codes "app";
  redirect_uri = codes "https://app/cb";
  scopes = [];
  code_challenge = [];
})

abbrev pub memory_services : (ℕ → Fault) → (ℕ → ℕ) → Services
memory_services fault clock = record {
  redis = memory_redis;
  users = memory_table nat_eq;
  users_by_email = memory_table text_eq;
  clients = memory_table text_eq;
  consents = memory_table nat_eq;
  recovery_codes = memory_table nat_eq;
  identities = memory_table (λ j k. j.0 == k.0 && text_eq j.1 k.1);
  fault = fault;
  clock = clock;
  random = λ tick n. replicate n (tick % 256);
  new_uuid = λ tick. tick;
  uuid_text = λ id. id ∷ [];
  uuid_parse = one_code;
  argon2_id_key = λ input salt time memory threads len. replicate len (digest (input ++ salt));
  sign = λ claims. some (claims.subject ++ claims.audience);
  verify = λ t token. some (record {
    email = token;
    email_verified = true;
    issuer = [];
    subject = token;
    audience = [];
    expires_at = suc t;
    issued_at = t;
    jti = [];
  });
  totp_validate = λ t code secret. text_eq code secret;
  totp_generate = λ tick issuer account. some (tick ∷ [], account);
  auth_code_url = λ state. codes "https://accounts.google.com?state=" ++ state;
  exchange = λ tick code. some code;
  verify_id_token =
      λ tick token. some (some (record { sub = token; email = token; email_verified = true }));
  marshal_meta = λ meta. meta.client_id;
  unmarshal_meta = toy_meta;
  with_query = λ uri query. some uri;
  query_escape = λ s. s;
  sha256 = λ s. replicate 32 (digest s);
  is_upper = λ r. leb 65 r && leb r 90;
  is_lower = λ r. leb 97 r && leb r 122;
  is_digit = λ r. leb 48 r && leb r 57;
  is_letter = λ r. (leb 65 r && leb r 90) || (leb 97 r && leb r 122);
}

identity_eq_ne : (j k : ℕ × Text) → j ≢ k → (j.0 == k.0 && text_eq j.1 k.1) ≡ false
identity_eq_ne (a, s) (b, t) ne = ground (arith, text_eq_iff s t)

-- The laws hold whatever calls fail, if the clock does not run backwards.
pub memory_services-laws :
    (fault : ℕ → Fault) (clock : ℕ → ℕ)
    → ((i j : ℕ) → i ≤ j → clock i ≤ clock j)
    → ServiceLaws (memory_services fault clock)
memory_services-laws fault clock mono = record {
  redis = memory_redis-laws;
  users = memory_table-laws nat_eq (λ k. ground arith) (λ j k ne. ground arith);
  users_by_email = memory_table-laws text_eq text_eq_refl text_eq_ne;
  clients = memory_table-laws text_eq text_eq_refl text_eq_ne;
  consents = memory_table-laws nat_eq (λ k. ground arith) (λ j k ne. ground arith);
  recovery_codes = memory_table-laws nat_eq (λ k. ground arith) (λ j k ne. ground arith);
  identities = memory_table-laws _ (λ k. ground (arith, text_eq_refl k.1)) identity_eq_ne;
  clock_mono = mono;
  uuid_parse-uuid_text = λ u. refl;
}
