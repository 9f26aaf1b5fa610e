-- ===== src/Storage/Postgres.antt =====
-- postgres_storage.go: the engine over three prepared statements. The database is a parameter: what
-- it returns for a statement with its arguments, and how the statement changes it.
pub mod Sql
pub mod Schema
pub mod Valid
pub mod Rows
pub mod Stored
pub mod Statements
pub mod Outcome
use khaos.Prelude.{
  ℕ, GoString, text, str_eq, Option, none, some, Bool, true, false, ◌||◌, not, List, [], ◌∷◌,
  if◌then◌else◌,
}
use mathlib.Core.Option
use khaos.Prelude.Int.{ℤ, is_negative}
use khaos.Values.{
  RiderUpdate, RiderRecord, Any, nil, rider_update, rider_update_ptr, rider_record, other, Error,
  getting_rider, setting_rider, deleting_rider, invalid_current_status, eta_minutes_negative,
  nil_rider_update, not_rider_update,
}
use khaos.Result.{Result, ok, err, ◌>>=◌}
use khaos.Storage.{Context, Lookup, StorageEngine}
use khaos.Storage.Postgres.Sql.{
  Value, string_value, float_value, int_value, Select, Upsert, DeleteFrom, get_statement,
  set_statement, delete_statement,
}

-- What a query of one row gives: its columns, sql.ErrNoRows, or another error.
pub data Row : Type 0 where
  returned : List Value → Row
  no_rows : Row
  failed : Error → Row

-- A database that runs prepared statements; and the conversions of Scan to the types of its
-- destinations, with its error for another number of columns.
pub record Database : Type 1 where
  pub Db : Type 0
  pub query_row : Context → Select → List Value → Db → Row
  pub exec_upsert : Context → Upsert → List Value → Db → Db × Option Error
  pub exec_delete : Context → DeleteFrom → List Value → Db → Db × Option Error
  pub to_string : Value → Result GoString
  pub to_float : Value → Result ℕ
  pub to_int : Value → Result ℤ
  pub to_time : Value → Result ℕ
  pub column_count_error : Error

-- `validRiderStatuses[status]`
unfoldable pub valid_rider_statuses : GoString → Bool
valid_rider_statuses status =
    str_eq status (text "AT_VENDOR")
    || str_eq status (text "EN_ROUTE")
    || str_eq status (text "ARRIVED")
    || str_eq status (text "DELIVERED")

unfoldable pub as_rider_update : Any → Result RiderUpdate
as_rider_update (rider_update v) = ok v
as_rider_update (rider_update_ptr none) = err nil_rider_update
as_rider_update (rider_update_ptr (some v)) = ok v
as_rider_update nil = err (not_rider_update (text "<nil>"))
as_rider_update (rider_record r) = err (not_rider_update (text "khaos.RiderRecord"))
as_rider_update (other type_name value) = err (not_rider_update type_name)

-- The checks of Set on the fields.
unfoldable pub check_update : GoString → RiderUpdate → Option Error
check_update key update =
    if not (valid_rider_statuses update.current_status)
    then some (invalid_current_status key update.current_status)
    else if is_negative update.eta_minutes
    then some (eta_minutes_negative key update.eta_minutes)
    else none

-- The arguments of ExecContext in Set, in order.
unfoldable pub set_arguments : GoString → RiderUpdate → List Value
set_arguments key update =
    string_value key
    ∷ string_value update.order_id
    ∷ float_value update.latitude
    ∷ float_value update.longitude
    ∷ string_value update.current_status
    ∷ int_value update.eta_minutes
    ∷ []

module _ (database : Database) where
  open database use {
    Db, query_row, exec_upsert, exec_delete, to_string, to_float, to_int, to_time,
    column_count_error,
  }

  -- Scan in Get: its destinations, in order.
  unfoldable pub scan_rider : List Value → Result RiderRecord
  scan_rider (v1 ∷ v2 ∷ v3 ∷ v4 ∷ v5 ∷ v6 ∷ []) = do
    order ← to_string v1
    lat ← to_float v2
    long ← to_float v3
    status ← to_string v4
    eta ← to_int v5
    time ← to_time v6
    ok (record {
      rider_update = record {
        order_id = order;
        latitude = lat;
        longitude = long;
        current_status = status;
        eta_minutes = eta;
      };
      updated_at = time;
    })
  scan_rider values = err column_count_error

  -- Get, for a row.
  unfoldable pub scanned : GoString → List Value → Lookup
  scanned key values = elim (scan_rider values) [
    | err e ↦ record { value = nil; found = false; err = some (getting_rider key e) }
    | ok rec ↦ record { value = rider_record rec; found = true; err = none }
  ]

  unfoldable pub get_rider : Context → GoString → Db → Lookup
  unfolding scanned scan_rider
  get_rider ctx key db = elim (query_row ctx get_statement (string_value key ∷ []) db) [
    | no_rows ↦ record { value = nil; found = false; err = none }
    | failed e ↦ record { value = nil; found = false; err = some (getting_rider key e) }
    | returned values ↦ scanned key values
  ]

  -- Set, from the fields on.
  unfoldable pub set_update : Context → GoString → RiderUpdate → Db → Db × Option Error
  unfolding set_arguments
  set_update ctx key update db = elim (check_update key update) [
    | some e ↦ (db, some e)
    | none ↦
        let (db', e) = exec_upsert ctx set_statement (set_arguments key update) db in
        (db', Option.map (setting_rider key) e)
  ]

  unfoldable pub set_rider : Context → GoString → Any → Db → Db × Option Error
  set_rider ctx key value db = elim (as_rider_update value) [
    | err e ↦ (db, some (setting_rider key e))
    | ok update ↦ set_update ctx key update db
  ]

  unfoldable pub delete_rider : Context → GoString → Db → Db × Option Error
  delete_rider ctx key db =
      let (db', e) = exec_delete ctx delete_statement (string_value key ∷ []) db in
      (db', Option.map (deleting_rider key) e)

  abbrev pub postgres : StorageEngine
  postgres = record { State = Db; get = get_rider; set = set_rider; delete = delete_rider }
