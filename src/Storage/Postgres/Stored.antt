-- ===== src/Storage/Postgres/Stored.antt =====
-- postgres_storage.go: what a Set without an error has done to the table, and how Get reads it.
use khaos.Prelude.{
  ℕ, ◌≡◌, refl, sym, ap, subst, ◌∙◌, GoString, str_eq, Option, none, some, true, if◌then◌else◌,
  arith, Option-cases, inl, inr,
}
use khaos.Values.{RiderUpdate, Any, rider_record, setting_rider}
use khaos.Result.{ok, Result-cases}
use khaos.Storage.{Context, Lookup}
use khaos.Storage.Postgres.Sql.{
  rider_id, order_id, latitude, longitude, current_status, eta_minutes, updated_at, string_value,
  float_value, int_value, time_value, set_statement,
}
use khaos.Storage.Postgres.{
  Database, as_rider_update, check_update, scan_rider, scanned, set_arguments, set_update,
  set_rider,
}
use khaos.Storage.Postgres.Valid.{
  IsValidUpdate, check_update-IsValidUpdate, eq_none_of_map, set_rider-err, set_rider-ok,
  set_update-some, set_update-none,
}
use khaos.Storage.Postgres.Rows.{TableRow, upserted, IsPostgres, key_of_argument, answer}

-- What Get answers for the update that is stored: `order` is its order_id as the column has it.
abbrev pub found_update : RiderUpdate → (order : GoString) (time : ℕ) → Lookup
found_update update order time = record {
  value =
      rider_record
        (record { rider_update = record update { order_id = order }; updated_at = time });
  found = true;
  err = none;
}

-- A row with the columns of an update.
record HasColumns (row : TableRow) (u : RiderUpdate) (order : GoString) (time : ℕ) : Type 0 where
  pub order_column : row order_id ≡ string_value order
  pub latitude_column : row latitude ≡ float_value u.latitude
  pub longitude_column : row longitude ≡ float_value u.longitude
  pub status_column : row current_status ≡ string_value u.current_status
  pub eta_column : row eta_minutes ≡ int_value u.eta_minutes
  pub time_column : row updated_at ≡ time_value time

HasColumns-upserted :
    (excluded : TableRow) (old : Option TableRow) {u : RiderUpdate} {order : GoString} {time : ℕ}
    → HasColumns excluded u order time
    → HasColumns (upserted set_statement excluded old) u order time
HasColumns-upserted excluded none c = c
HasColumns-upserted excluded (some old) c = record {
  order_column = c.order_column;
  latitude_column = c.latitude_column;
  longitude_column = c.longitude_column;
  status_column = c.status_column;
  eta_column = c.eta_column;
  time_column = c.time_column;
}

module _ {database : Database} (postgres : IsPostgres database) where
  open postgres use {canonical, table}

  answer-HasColumns :
      (key : GoString) (row : TableRow) (u : RiderUpdate) (order : GoString) (time : ℕ)
      → HasColumns row u order time
      → answer postgres key (some row) ≡ found_update u order time
  unfolding scanned scan_rider
  answer-HasColumns key row u order time c =
      rw
        (
          c.order_column,
          c.latitude_column,
          c.longitude_column,
          c.status_column,
          c.eta_column,
          c.time_column,
          postgres.to_string_same order,
          postgres.to_float_same u.latitude,
          postgres.to_float_same u.longitude,
          postgres.to_string_same u.current_status,
          postgres.to_int_same u.eta_minutes,
          postgres.to_time_same time,
          scanned,
          scan_rider,
        )
        refl

  pub record Stored (key : GoString) (value : Any) (db db' : database.Db) : Type 0 where
    pub update : RiderUpdate
    pub order : GoString
    pub time : ℕ
    pub k : GoString
    pub row : TableRow
    pub given : as_rider_update value ≡ ok update
    pub valid : IsValidUpdate update
    pub order_canonical : canonical update.order_id ≡ some order
    pub key_canonical : canonical key ≡ some k
    pub row_answer : (j : GoString) → answer postgres j (some row) ≡ found_update update order time
    pub rows : (j : GoString) → table db' j ≡ (if str_eq k j then some row else table db j)

  set_update-Stored :
      (ctx : Context) (key : GoString) (value : Any) (u : RiderUpdate) (db : database.Db)
      → as_rider_update value ≡ ok u
      → (set_update database ctx key u db).1 ≡ none
      → Stored key value db (set_update database ctx key u db).0
  unfolding set_arguments
  set_update-Stored ctx key value u db given done = elim (Option-cases (check_update key u)) [
    | inr (c, e) ↦
        let failing : some c ≡ none =
          sym (ap (λ p. p.1) (set_update-some database ctx key db u c e)) ∙ done in
        absurd (ground arith)
    | inl e ↦
        let ran = set_update-none database ctx key db u e in
        let fine = eq_none_of_map (setting_rider key) _ (sym (ap (λ p. p.1) ran) ∙ done) in
        let (time, k, excluded, at_k, columns, rows) =
          postgres.exec_upsert_upserts ctx set_statement (set_arguments key u) db refl refl fine in
        let (k', known, same) = columns rider_id _ refl in
        let (order, order_known, order_same) = columns order_id _ refl in
        let stored : HasColumns excluded u order time = record {
          order_column = order_same;
          latitude_column = columns latitude _ refl;
          longitude_column = columns longitude _ refl;
          status_column = columns current_status _ refl;
          eta_column = columns eta_minutes _ refl;
          time_column = columns updated_at _ refl;
        } in
        let row = upserted set_statement excluded (table db k) in
        record {
          update = u;
          order = order;
          time = time;
          k = k;
          row = row;
          given = given;
          valid = check_update-IsValidUpdate key u e;
          order_canonical = order_known;
          key_canonical = key_of_argument canonical key k (k', known, sym at_k ∙ same);
          row_answer = λ j.
              answer-HasColumns j row u order time
                (HasColumns-upserted excluded (table db k) stored);
          rows = λ j. ap (λ p. table p.0 j) ran ∙ rows j;
        }
  ]

  pub set_rider-Stored :
      (ctx : Context) (key : GoString) (value : Any) (db : database.Db)
      → (set_rider database ctx key value db).1 ≡ none
      → Stored key value db (set_rider database ctx key value db).0
  set_rider-Stored ctx key value db done = elim (Result-cases (as_rider_update value)) [
    | inr (c, e) ↦
        let failing : some (setting_rider key c) ≡ none =
          sym (ap (λ p. p.1) (set_rider-err database ctx key db value c e)) ∙ done in
        absurd (ground arith)
    | inl (u, e) ↦
        let same_call = set_rider-ok database ctx key db value u e in
        subst (λ p. Stored key value db p.0) (sym same_call)
          (set_update-Stored ctx key value u db e (sym (ap (λ p. p.1) same_call) ∙ done))
  ]
