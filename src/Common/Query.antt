-- ===== src/Common/Query.antt =====
-- What gorm documents of its queries and statements, in terms of the rows of a table.
use micro_market.Base.{String, ◌≡◌, Option, none, some}
use micro_market.Common.AppError.{record_not_found, other}
use micro_market.Common.Action.{Result, ok, err}

abbrev pub or_not_found : {Row : Type 0} → Option Row → Result Row
or_not_found none = err record_not_found
or_not_found (some r) = ok r

-- A query for one row returns the row, "record not found" where there is none, or it fails.
pub data Answers {Row : Type 0} (expected : Option Row) (end : Result Row) : Type 0 where
  answered : end ≡ or_not_found expected → Answers expected end
  failed : (m : String) → end ≡ err (other m) → Answers expected end

-- A statement fails and leaves the database, or it succeeds with the effect `Effect`.
pub data Writes {A Db : Type 0} (Effect : A → Db → Type 0) (db : Db) (end : Result A × Db)
    : Type 0 where
  failed : (m : String) → end ≡ (err (other m), db) → Writes Effect db end
  wrote : (a : A) (db' : Db) → end ≡ (ok a, db') → Effect a db' → Writes Effect db end
