-- ===== src/Env/Redis.antt =====
-- The Redis server as the go-redis client sees it: the commands that the program sends, an
-- abstract view of the keys, and the documented effect of each command on that view. Times are
-- seconds. The program's key families are disjoint, so no command meets a value of another type.
use braza_sso.Prelude.{
  ℕ, suc, ◌+◌, ◌≤◌, ◌≡◌, ◌≢◌, ◌==◌, false, ◌||◌, Option, none, some, List, [], Text, text_eq,
  contains, ltb, if◌then◌else◌,
}

pub record Redis : Type 1 where
  pub Db : Type 0
  -- The string that a key holds at a time, the members of a set, and the integer of a counter.
  pub value : Db → ℕ → Text → Option Text
  pub elements : Db → Text → List Text
  pub count : Db → ℕ → Text → ℕ
  -- SET key value EX ttl, or SET key value for a time to live of 0, as go-redis sends it; DEL, SADD, SREM, INCR and EXPIRE, at a time where that matters.
  pub set : ℕ → Text → Text → ℕ → Db → Db
  pub del : Text → Db → Db
  pub sadd : Text → Text → Db → Db
  pub srem : Text → Text → Db → Db
  pub incr : ℕ → Text → Db → Db
  pub expire : ℕ → Text → ℕ → Db → Db

-- The documented behaviour: a key written with a time to live holds its value until then, or, with
-- one of 0, until it is written again; DEL
-- removes a key of any type, sets are sets, INCR adds one to what is there (0 if nothing is, or
-- if it has expired) and EXPIRE moves the deadline. No command touches another key.
pub record RedisLaws (R : Redis) : Type 0 where
  pub value-set :
      (t : ℕ) (k v : Text) (ttl : ℕ) (d : R.Db) (u : ℕ) (j : Text)
      → t ≤ u
      → R.value (R.set t k v ttl d) u j ≡ (
          if text_eq j k
          then (if ttl == 0 || ltb u (t + ttl) then some v else none)
          else R.value d u j)
  pub value-del :
      (k : Text) (d : R.Db) (u : ℕ) (j : Text)
      → R.value (R.del k d) u j ≡ (if text_eq j k then none else R.value d u j)
  pub value-sadd :
      (k m : Text) (d : R.Db) (u : ℕ) (j : Text)
      → j ≢ k
      → R.value (R.sadd k m d) u j ≡ R.value d u j
  pub value-srem :
      (k m : Text) (d : R.Db) (u : ℕ) (j : Text)
      → j ≢ k
      → R.value (R.srem k m d) u j ≡ R.value d u j
  pub value-incr :
      (t : ℕ) (k : Text) (d : R.Db) (u : ℕ) (j : Text)
      → j ≢ k
      → R.value (R.incr t k d) u j ≡ R.value d u j
  pub value-expire :
      (t : ℕ) (k : Text) (w : ℕ) (d : R.Db) (u : ℕ) (j : Text)
      → j ≢ k
      → R.value (R.expire t k w d) u j ≡ R.value d u j
  pub elements-set :
      (t : ℕ) (k v : Text) (ttl : ℕ) (d : R.Db) (j : Text)
      → j ≢ k
      → R.elements (R.set t k v ttl d) j ≡ R.elements d j
  pub elements-del :
      (k : Text) (d : R.Db) (j : Text)
      → R.elements (R.del k d) j ≡ (if text_eq j k then [] else R.elements d j)
  pub elements-sadd :
      (k m : Text) (d : R.Db) (j x : Text)
      → contains (R.elements (R.sadd k m d) j) x ≡ (
          if text_eq j k
          then (text_eq m x || contains (R.elements d j) x)
          else contains (R.elements d j) x)
  pub elements-srem :
      (k m : Text) (d : R.Db) (j x : Text)
      → contains (R.elements (R.srem k m d) j) x ≡ (
          if text_eq j k
          then (if text_eq m x then false else contains (R.elements d j) x)
          else contains (R.elements d j) x)
  pub elements-incr :
      (t : ℕ) (k : Text) (d : R.Db) (j : Text)
      → j ≢ k
      → R.elements (R.incr t k d) j ≡ R.elements d j
  pub elements-expire :
      (t : ℕ) (k : Text) (w : ℕ) (d : R.Db) (j : Text)
      → j ≢ k
      → R.elements (R.expire t k w d) j ≡ R.elements d j
  pub count-incr : (t : ℕ) (k : Text) (d : R.Db) → R.count (R.incr t k d) t k ≡ suc (R.count d t k)
  pub count-expire :
      (t : ℕ) (k : Text) (w : ℕ) (d : R.Db) (u : ℕ)
      → t ≤ u
      → R.count (R.expire t k w d) u k ≡ (if ltb u (t + w) then R.count d t k else 0)
  pub count-del : (k : Text) (d : R.Db) (u : ℕ) → R.count (R.del k d) u k ≡ 0
