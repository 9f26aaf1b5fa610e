-- ===== src/Tests/RiderTable.antt =====
-- A table of riders as a map, which takes each text for a UUID and returns it in lower case, with a
-- clock that stands still.
pub mod Laws
use khaos.Prelude.{
  ℕ, ◌+◌, ◌-◌, ◌≡◌, refl, sym, ap, subst, ◌∙◌, GoString, str_eq, Option, none, some, GoMap, update,
  List, map, get_elem?, leb, ◌&&◌, if◌then◌else◌,
}
use khaos.Values.{Error, foreign}
use khaos.Result.{ok, err}
use khaos.Storage.{Context}
use khaos.Storage.Postgres.Sql.{
  Column, rider_id, order_id, latitude, longitude, current_status, eta_minutes, updated_at, Value,
  string_value, float_value, int_value, time_value, Expr, parameter, now, Select, Upsert,
  DeleteFrom,
}
use khaos.Storage.Postgres.{Database, Row, returned, no_rows, failed}
use khaos.Storage.Postgres.Rows.{
  TableRow, Holds, HoldsArgument, IsValueOf, expr_of, upserted, IsPostgres,
}

abbrev pub lower : GoString → GoString
lower = map (λ c. if leb 65 c && leb c 90 then c + 32 else c)

abbrev pub lower_case : GoString → Option GoString
lower_case s = some (lower s)

abbrev pub kept : Column → Value → Value
kept rider_id (string_value s) = string_value (lower s)
kept order_id (string_value s) = string_value (lower s)
kept column value = value

abbrev pub kept_argument : Column → Option Value → Value
kept_argument column none = time_value 0
kept_argument column (some value) = kept column value

abbrev pub evaluated : List Value → Column → Expr → Value
evaluated arguments column now = time_value 7
evaluated arguments column (parameter n) = kept_argument column (get_elem? arguments (n - 1))

abbrev pub inserted_value : List Value → Column → Option Expr → Value
inserted_value arguments column none = time_value 0
inserted_value arguments column (some e) = evaluated arguments column e

abbrev pub inserted : Upsert → List Value → TableRow
inserted q arguments column = inserted_value arguments column (expr_of q.columns q.values column)

abbrev pub key_in : Value → Option GoString
key_in (string_value k) = some k
key_in value = none

abbrev pub Table : Type 0
Table = GoMap TableRow

abbrev pub row_found : Select → Option TableRow → Row
row_found q none = no_rows
row_found q (some row) = returned (map row q.columns)

abbrev pub look_up : Select → Option GoString → Table → Row
look_up q none db = failed (foreign 0)
look_up q (some k) db = row_found q (db k)

-- A statement under an ended context is refused.
abbrev pub query_row : Context → Select → List Value → Table → Row
query_row none q arguments db =
    look_up q (key_in (evaluated arguments rider_id q.condition.equals)) db
query_row (some e) q arguments db = failed e

abbrev pub put : Option GoString → (GoString → Option TableRow) → Table → Table × Option Error
put none content db = (db, some (foreign 0))
put (some k) content db = (update k (content k) db, none)

abbrev pub exec_upsert : Context → Upsert → List Value → Table → Table × Option Error
exec_upsert none q arguments db =
    put (key_in (inserted q arguments rider_id))
      (λ k. some (upserted q (inserted q arguments) (db k))) db
exec_upsert (some e) q arguments db = (db, some e)

abbrev pub exec_delete : Context → DeleteFrom → List Value → Table → Table × Option Error
exec_delete none q arguments db =
    put (key_in (evaluated arguments rider_id q.condition.equals)) (λ k. none) db
exec_delete (some e) q arguments db = (db, some e)

abbrev pub riders : Database
riders = record {
  Db = Table;
  query_row = query_row;
  exec_upsert = exec_upsert;
  exec_delete = exec_delete;
  to_string = λ v. elim v [ string_value s ↦ ok s | _ ↦ err (foreign 1) ];
  to_float = λ v. elim v [ float_value x ↦ ok x | _ ↦ err (foreign 1) ];
  to_int = λ v. elim v [ int_value n ↦ ok n | _ ↦ err (foreign 1) ];
  to_time = λ v. elim v [ time_value t ↦ ok t | _ ↦ err (foreign 1) ];
  column_count_error = foreign 2;
}
