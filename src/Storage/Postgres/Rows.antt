-- ===== src/Storage/Postgres/Rows.antt =====
-- What postgres_storage.go relies on of PostgreSQL and of Scan, for any statement of the forms that it
-- uses, and what its own three statements then do.
use khaos.Prelude.{
  ℕ, ◌-◌, ◌≡◌, refl, sym, ap, ◌∙◌, GoString, str_eq, Option, none, some, Bool, false, List, [], ◌∷◌,
  ◌||◌, map, get_elem?, if◌then◌else◌, arith,
}
use khaos.Prelude.Int.{ℤ}
use khaos.Values.{nil, getting_rider}
use khaos.Result.{ok}
use khaos.Storage.{Context, Lookup}
use khaos.Storage.Postgres.Sql.{
  Column, rider_id, order_id, latitude, longitude, current_status, eta_minutes, Value, string_value,
  float_value, int_value, time_value, Expr, parameter, now, Select, Upsert, DeleteFrom,
  get_statement, column_eq,
}
use khaos.Storage.Postgres.{Database, Row, returned, no_rows, failed, scanned, get_rider}

abbrev pub TableRow : Type 0
TableRow = Column → Value

-- What a column holds for a value that it has taken, by its type in schema.sql. `canonical` is the
-- form in which PostgreSQL returns a UUID, for each of its spellings; it refuses other texts.
-- Nothing is said of a value of another type than the column's.
abbrev pub Holds : (canonical : GoString → Option GoString) → Column → Value → Value → Type 0
Holds canonical rider_id (string_value s) held =
    (u : GoString) × (canonical s ≡ some u) × (held ≡ string_value u)
Holds canonical order_id (string_value s) held =
    (u : GoString) × (canonical s ≡ some u) × (held ≡ string_value u)
Holds canonical latitude (float_value x) held = held ≡ float_value x
Holds canonical longitude (float_value x) held = held ≡ float_value x
Holds canonical current_status (string_value s) held = held ≡ string_value s
Holds canonical eta_minutes (int_value n) held = held ≡ int_value n
Holds canonical column value held = Unit {0}

abbrev pub HoldsArgument :
    (canonical : GoString → Option GoString) → Column → Option Value → Value → Type 0
HoldsArgument canonical column none held = Unit {0}
HoldsArgument canonical column (some value) held = Holds canonical column value held

-- The value of an expression in a column, for the arguments of the call and its time.
abbrev pub IsValueOf :
    (canonical : GoString → Option GoString) (arguments : List Value) (time : ℕ)
    → Column
    → Expr
    → Value
    → Type 0
IsValueOf canonical arguments time column now held = held ≡ time_value time
IsValueOf canonical arguments time column (parameter n) held =
    HoldsArgument canonical column (get_elem? arguments (n - 1)) held

-- The expression that an INSERT has for a column.
abbrev pub expr_of : List Column → List Expr → Column → Option Expr
expr_of (c ∷ cs) (e ∷ es) column = if column_eq c column then some e else expr_of cs es column
expr_of cs es column = none

-- The row that is kept on a conflict.
abbrev pub updated : List (Column × Column) → (excluded old : TableRow) → TableRow
updated [] excluded old column = old column
updated ((c, d) ∷ updates) excluded old column =
    if column_eq c column then excluded d else updated updates excluded old column

abbrev pub upserted : Upsert → TableRow → Option TableRow → TableRow
upserted q excluded none = excluded
upserted q excluded (some old) = updated q.updates excluded old

abbrev pub assigns : Column → List (Column × Column) → Bool
assigns column [] = false
assigns column ((c, d) ∷ updates) = column_eq c column || assigns column updates

-- `table` has the row of each rider, by the canonical form of rider_id, the primary key. A statement
-- that reports success has had the effect that its text says; of one that reports an error nothing
-- is said. A text, a float64, an int and a time are scanned as they are.
pub record IsPostgres (database : Database) : Type 0 where
  pub canonical : GoString → Option GoString
  pub table : database.Db → GoString → Option TableRow
  pub query_row_returned :
      (ctx : Context) (q : Select) (arguments : List Value) (db : database.Db) (values : List Value)
      → q.condition.column ≡ rider_id
      → database.query_row ctx q arguments db ≡ returned values
      → (time : ℕ) × (k : GoString) × (row : TableRow) × IsValueOf canonical arguments time rider_id
          q.condition.equals
          (string_value k)
        × (table db k ≡ some row)
        × (values ≡ map row q.columns)
  pub query_row_no_rows :
      (ctx : Context) (q : Select) (arguments : List Value) (db : database.Db)
      → q.condition.column ≡ rider_id
      → database.query_row ctx q arguments db ≡ no_rows
      → (time : ℕ) × (k : GoString) × IsValueOf canonical arguments time rider_id q.condition.equals
          (string_value k)
        × (table db k ≡ none)
  pub exec_upsert_upserts :
      (ctx : Context) (q : Upsert) (arguments : List Value) (db : database.Db)
      → q.conflict ≡ rider_id
      → assigns rider_id q.updates ≡ false
      → (database.exec_upsert ctx q arguments db).1 ≡ none
      → (time : ℕ) × (k : GoString) × (excluded : TableRow) × (excluded rider_id ≡ string_value k)
        × ((c : Column) (e : Expr)
            → expr_of q.columns q.values c ≡ some e
            → IsValueOf canonical arguments time c e (excluded c))
        × ((j : GoString)
            → table (database.exec_upsert ctx q arguments db).0 j
              ≡ (if str_eq k j then some (upserted q excluded (table db k)) else table db j))
  pub exec_delete_deletes :
      (ctx : Context) (q : DeleteFrom) (arguments : List Value) (db : database.Db)
      → q.condition.column ≡ rider_id
      → (database.exec_delete ctx q arguments db).1 ≡ none
      → (time : ℕ) × (k : GoString) × IsValueOf canonical arguments time rider_id q.condition.equals
          (string_value k)
        × ((j : GoString)
            → table (database.exec_delete ctx q arguments db).0 j
              ≡ (if str_eq k j then none else table db j))
  pub to_string_same : (s : GoString) → database.to_string (string_value s) ≡ ok s
  pub to_float_same : (x : ℕ) → database.to_float (float_value x) ≡ ok x
  pub to_int_same : (n : ℤ) → database.to_int (int_value n) ≡ ok n
  pub to_time_same : (t : ℕ) → database.to_time (time_value t) ≡ ok t

string_value_injective : {s t : GoString} → string_value s ≡ string_value t → s ≡ t
string_value_injective e = cc

-- A Uuid parameter names the rider of its canonical form.
pub key_of_argument :
    (canonical : GoString → Option GoString) (key k : GoString)
    → Holds canonical rider_id (string_value key) (string_value k)
    → canonical key ≡ some k
key_of_argument canonical key k (u, e, same) =
    e ∙ ap (λ s. some s) (sym (string_value_injective same))

module _ {database : Database} (postgres : IsPostgres database) where
  open postgres use {canonical, table}

  -- What Get answers for a row of the table.
  abbrev pub answer : GoString → Option TableRow → Lookup
  answer key none = record { value = nil; found = false; err = none }
  answer key (some row) = scanned database key (map row get_statement.columns)

  -- A Get that reports no error answers with the row of the rider.
  pub get_rider-answer :
      (ctx : Context) (key : GoString) (db : database.Db)
      → (get_rider database ctx key db).err ≡ none
      → (k : GoString) × (canonical key ≡ some k)
        × (get_rider database ctx key db ≡ answer key (table db k))
  unfolding get_rider
  get_rider-answer ctx key db clean =
      let row : Row = database.query_row ctx get_statement (string_value key ∷ []) db in go row refl
    where
      go :
          (row : Row)
          → database.query_row ctx get_statement (string_value key ∷ []) db ≡ row
          → (k : GoString) × (canonical key ≡ some k)
            × (get_rider database ctx key db ≡ answer key (table db k))
      go (returned values) e =
          let (time, k, row, holds, there, columns) =
            postgres.query_row_returned ctx get_statement (string_value key ∷ []) db values refl
              e in
          (
            k,
            key_of_argument canonical key k holds,
            rw (e, get_rider) (rw there (ap (scanned database key) columns)),
          )
      go no_rows e =
          let (time, k, holds, missing) =
            postgres.query_row_no_rows ctx get_statement (string_value key ∷ []) db refl e in
          (k, key_of_argument canonical key k holds, rw (e, get_rider) (rw missing))
      go (failed c) e =
          let f : (get_rider database ctx key db).err ≡ some (getting_rider key c) =
            rw (e, get_rider) refl in
          absurd (ground arith)
