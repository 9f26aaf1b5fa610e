-- ===== src/Storage/Postgres/Sql.antt =====
-- postgres_storage.go: the text of getQuery, setQuery and deleteQuery, clause by clause, as data.
use khaos.Prelude.{ℕ, GoString, List, [], ◌∷◌, Bool, ◌==◌}
use khaos.Prelude.Int.{ℤ}

-- The columns of active_rider_tracking.
pub data Column : Type 0 where
  rider_id order_id latitude longitude current_status eta_minutes updated_at : Column

-- A value that is bound to a parameter or scanned from a column.
pub data Value : Type 0 where
  string_value : GoString → Value
  float_value : (bits : ℕ) → Value
  int_value : ℤ → Value
  time_value : (microseconds : ℕ) → Value

-- `$n`, where n counts from 1, or `now()`.
pub data Expr : Type 0 where
  parameter : (number : ℕ) → Expr
  now : Expr

-- `WHERE column = equals`
pub record Condition : Type 0 where
  pub column : Column
  pub equals : Expr

-- `SELECT columns FROM active_rider_tracking WHERE condition`
pub record Select : Type 0 where
  pub columns : List Column
  pub condition : Condition

-- `INSERT INTO active_rider_tracking (columns) VALUES (values) ON CONFLICT (conflict) DO UPDATE SET`,
-- and for each update (c, d) `c = EXCLUDED.d`.
pub record Upsert : Type 0 where
  pub columns : List Column
  pub values : List Expr
  pub conflict : Column
  pub updates : List (Column × Column)

-- `DELETE FROM active_rider_tracking WHERE condition`
pub record DeleteFrom : Type 0 where
  pub condition : Condition

abbrev pub get_statement : Select
get_statement = record {
  columns = order_id ∷ latitude ∷ longitude ∷ current_status ∷ eta_minutes ∷ updated_at ∷ [];
  condition = record { column = rider_id; equals = parameter 1 };
}

abbrev pub set_statement : Upsert
set_statement = record {
  columns =
      rider_id ∷ order_id ∷ latitude ∷ longitude ∷ current_status ∷ eta_minutes ∷ updated_at ∷ [];
  values =
      parameter 1 ∷ parameter 2 ∷ parameter 3 ∷ parameter 4 ∷ parameter 5 ∷ parameter 6 ∷ now ∷ [];
  conflict = rider_id;
  updates =
      (order_id, order_id)
      ∷ (latitude, latitude)
      ∷ (longitude, longitude)
      ∷ (current_status, current_status)
      ∷ (eta_minutes, eta_minutes)
      ∷ (updated_at, updated_at)
      ∷ [];
}

abbrev pub delete_statement : DeleteFrom
delete_statement = record { condition = record { column = rider_id; equals = parameter 1 } }

abbrev position : Column → ℕ
position rider_id = 0
position order_id = 1
position latitude = 2
position longitude = 3
position current_status = 4
position eta_minutes = 5
position updated_at = 6

abbrev pub column_eq : Column → Column → Bool
column_eq c d = position c == position d
