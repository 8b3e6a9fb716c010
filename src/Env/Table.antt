-- ===== src/Env/Table.antt =====
-- A Cassandra table behind its driver, read and written by primary key. INSERT and UPDATE are both
-- upserts: they assign columns of the row, which need not be there before.
use braza_sso.Prelude.{◌≡◌, ◌≢◌, Option, some}

pub record Table (K V : Type 0) : Type 1 where
  pub Db : Type 0
  pub row : Db → K → Option V
  pub upsert : K → (Option V → V) → Db → Db

pub record TableLaws {K V : Type 0} (T : Table K V) : Type 0 where
  pub row-upsert :
      (k : K) (f : Option V → V) (d : T.Db) → T.row (T.upsert k f d) k ≡ some (f (T.row d k))
  pub row-upsert_ne :
      (k j : K) (f : Option V → V) (d : T.Db) → j ≢ k → T.row (T.upsert k f d) j ≡ T.row d j
