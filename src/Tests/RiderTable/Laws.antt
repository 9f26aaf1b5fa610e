-- ===== src/Tests/RiderTable/Laws.antt =====
-- The table of riders runs statements as it is relied on of PostgreSQL.
use khaos.Prelude.{
  ℕ, ◌-◌, ◌≡◌, refl, sym, ap, subst, ◌∙◌, GoString, str_eq, Option, none, some, List, map,
  get_elem?, if◌then◌else◌,
}
use khaos.Storage.{Context}
use khaos.Storage.Postgres.Sql.{
  Column, rider_id, order_id, latitude, longitude, current_status, eta_minutes, updated_at, Value,
  string_value, float_value, int_value, time_value, Expr, parameter, now, Select, Upsert,
  DeleteFrom,
}
use khaos.Storage.Postgres.{returned, no_rows}
use khaos.Storage.Postgres.Rows.{
  TableRow, Holds, HoldsArgument, IsValueOf, expr_of, upserted, IsPostgres,
}
use khaos.Tests.RiderTable.{
  lower, lower_case, kept, kept_argument, evaluated, inserted_value, inserted, key_in, Table,
  row_found, look_up, query_row, put, exec_upsert, exec_delete, riders,
}

kept-Holds : (c : Column) (v : Value) → Holds lower_case c v (kept c v)
kept-Holds rider_id (string_value s) = (lower s, refl, refl)
kept-Holds rider_id (float_value x) = tt
kept-Holds rider_id (int_value n) = tt
kept-Holds rider_id (time_value t) = tt
kept-Holds order_id (string_value s) = (lower s, refl, refl)
kept-Holds order_id (float_value x) = tt
kept-Holds order_id (int_value n) = tt
kept-Holds order_id (time_value t) = tt
kept-Holds latitude (string_value s) = tt
kept-Holds latitude (float_value x) = refl
kept-Holds latitude (int_value n) = tt
kept-Holds latitude (time_value t) = tt
kept-Holds longitude (string_value s) = tt
kept-Holds longitude (float_value x) = refl
kept-Holds longitude (int_value n) = tt
kept-Holds longitude (time_value t) = tt
kept-Holds current_status (string_value s) = refl
kept-Holds current_status (float_value x) = tt
kept-Holds current_status (int_value n) = tt
kept-Holds current_status (time_value t) = tt
kept-Holds eta_minutes (string_value s) = tt
kept-Holds eta_minutes (float_value x) = tt
kept-Holds eta_minutes (int_value n) = refl
kept-Holds eta_minutes (time_value t) = tt
kept-Holds updated_at v = tt

kept_argument-HoldsArgument :
    (c : Column) (v : Option Value) → HoldsArgument lower_case c v (kept_argument c v)
kept_argument-HoldsArgument c none = tt
kept_argument-HoldsArgument c (some v) = kept-Holds c v

evaluated-IsValueOf :
    (arguments : List Value) (c : Column) (e : Expr)
    → IsValueOf lower_case arguments 7 c e (evaluated arguments c e)
evaluated-IsValueOf arguments c now = refl
evaluated-IsValueOf arguments c (parameter n) =
    kept_argument-HoldsArgument c (get_elem? arguments (n - 1))

key_in-some : (v : Value) (k : GoString) → key_in v ≡ some k → v ≡ string_value k
key_in-some (string_value s) k e = cc
key_in-some (float_value x) k e = cc
key_in-some (int_value n) k e = cc
key_in-some (time_value t) k e = cc

-- The key of a condition.
IsValueOf-key :
    (arguments : List Value) (e : Expr) (k : GoString)
    → key_in (evaluated arguments rider_id e) ≡ some k
    → IsValueOf lower_case arguments 7 rider_id e (string_value k)
IsValueOf-key arguments e k at =
    subst (IsValueOf lower_case arguments 7 rider_id e) (key_in-some _ k at)
      (evaluated-IsValueOf arguments rider_id e)

look_up-returned :
    (q : Select) (key : Option GoString) (db : Table) (values : List Value)
    → look_up q key db ≡ returned values
    → (k : GoString) × (row : TableRow) × (key ≡ some k)
      × (db k ≡ some row)
      × (values ≡ map row q.columns)
look_up-returned q none db values e = cc
look_up-returned q (some k) db values e = go (db k) refl
  where
    go :
        (r : Option TableRow)
        → db k ≡ r
        → (k' : GoString) × (row : TableRow) × (some k ≡ some k')
          × (db k' ≡ some row)
          × (values ≡ map row q.columns)
    go none at = absurd (let f : no_rows ≡ returned values = ap (row_found q) (sym at) ∙ e in cc)
    go (some row) at =
        let f : returned (map row q.columns) ≡ returned values = ap (row_found q) (sym at) ∙ e in
        (k, row, refl, at, cc)

look_up-no_rows :
    (q : Select) (key : Option GoString) (db : Table)
    → look_up q key db ≡ no_rows
    → (k : GoString) × (key ≡ some k) × (db k ≡ none)
look_up-no_rows q none db e = cc
look_up-no_rows q (some k) db e = go (db k) refl
  where
    go : (r : Option TableRow) → db k ≡ r → (k' : GoString) × (some k ≡ some k') × (db k' ≡ none)
    go none at = (k, refl, at)
    go (some row) at =
        absurd
          (let f : returned (map row q.columns) ≡ no_rows = ap (row_found q) (sym at) ∙ e in cc)

put-none :
    (key : Option GoString) (content : GoString → Option TableRow) (db : Table)
    → (put key content db).1 ≡ none
    → (k : GoString) × (key ≡ some k)
      × ((j : GoString) → (put key content db).0 j ≡ (if str_eq k j then content k else db j))
put-none none content db e = cc
put-none (some k) content db e = (k, refl, λ j. refl)

query_row-returned :
    (ctx : Context) (q : Select) (arguments : List Value) (db : Table) (values : List Value)
    → query_row ctx q arguments db ≡ returned values
    → (time : ℕ) × (k : GoString) × (row : TableRow) × IsValueOf lower_case arguments time rider_id
        q.condition.equals
        (string_value k)
      × (db k ≡ some row)
      × (values ≡ map row q.columns)
query_row-returned none q arguments db values e =
    let (k, row, at, there, columns) = look_up-returned q _ db values e in
    (7, k, row, IsValueOf-key arguments q.condition.equals k at, there, columns)
query_row-returned (some c) q arguments db values e = cc

query_row-no_rows :
    (ctx : Context) (q : Select) (arguments : List Value) (db : Table)
    → query_row ctx q arguments db ≡ no_rows
    → (time : ℕ) × (k : GoString) × IsValueOf lower_case arguments time rider_id q.condition.equals
        (string_value k)
      × (db k ≡ none)
query_row-no_rows none q arguments db e =
    let (k, at, missing) = look_up-no_rows q _ db e in
    (7, k, IsValueOf-key arguments q.condition.equals k at, missing)
query_row-no_rows (some c) q arguments db e = cc

inserted-IsValueOf :
    (q : Upsert) (arguments : List Value) (c : Column) (e : Expr)
    → expr_of q.columns q.values c ≡ some e
    → IsValueOf lower_case arguments 7 c e (inserted q arguments c)
inserted-IsValueOf q arguments c e at =
    subst (IsValueOf lower_case arguments 7 c e) (ap (inserted_value arguments c) (sym at))
      (evaluated-IsValueOf arguments c e)

exec_upsert-none :
    (ctx : Context) (q : Upsert) (arguments : List Value) (db : Table)
    → (exec_upsert ctx q arguments db).1 ≡ none
    → (time : ℕ) × (k : GoString) × (excluded : TableRow) × (excluded rider_id ≡ string_value k)
      × ((c : Column) (e : Expr)
          → expr_of q.columns q.values c ≡ some e
          → IsValueOf lower_case arguments time c e (excluded c))
      × ((j : GoString)
          → (exec_upsert ctx q arguments db).0 j
            ≡ (if str_eq k j then some (upserted q excluded (db k)) else db j))
exec_upsert-none none q arguments db done =
    let (k, at, rows) = put-none (key_in (inserted q arguments rider_id)) _ db done in
    (
      7,
      k,
      inserted q arguments,
      key_in-some _ k at,
      λ c e there. inserted-IsValueOf q arguments c e there,
      rows,
    )
exec_upsert-none (some c) q arguments db done = cc

exec_delete-none :
    (ctx : Context) (q : DeleteFrom) (arguments : List Value) (db : Table)
    → (exec_delete ctx q arguments db).1 ≡ none
    → (time : ℕ) × (k : GoString) × IsValueOf lower_case arguments time rider_id q.condition.equals
        (string_value k)
      × ((j : GoString)
          → (exec_delete ctx q arguments db).0 j ≡ (if str_eq k j then none else db j))
exec_delete-none none q arguments db done =
    let (k, at, rows) =
      put-none (key_in (evaluated arguments rider_id q.condition.equals)) (λ k. none) db done in
    (7, k, IsValueOf-key arguments q.condition.equals k at, rows)
exec_delete-none (some c) q arguments db done = cc

pub riders-IsPostgres : IsPostgres riders
riders-IsPostgres = record {
  canonical = lower_case;
  table = λ db k. db k;
  query_row_returned =
      λ ctx q arguments db values at e. query_row-returned ctx q arguments db values e;
  query_row_no_rows = λ ctx q arguments db at e. query_row-no_rows ctx q arguments db e;
  exec_upsert_upserts = λ ctx q arguments db at fixed e. exec_upsert-none ctx q arguments db e;
  exec_delete_deletes = λ ctx q arguments db at e. exec_delete-none ctx q arguments db e;
  to_string_same = λ s. refl;
  to_float_same = λ x. refl;
  to_int_same = λ n. refl;
  to_time_same = λ t. refl;
}
