-- ===== src/Storage/Postgres/Outcome.antt =====
-- What callers of the engine of postgres_storage.go rely on.
use khaos.Prelude.{
  ℕ, ◌≡◌, refl, sym, ap, ◌∙◌, GoString, str_eq, Option, none, some, Bool, false, if◌then◌else◌,
  Option-cases, Bool-cases, inl, inr, arith, [], ◌∷◌,
}
use khaos.Values.{RiderUpdate, Any, nil, Error, setting_rider, deleting_rider}
use khaos.Result.{ok, Result-cases}
use khaos.Storage.{Context}
use khaos.Storage.Postgres.Sql.{string_value, delete_statement}
use khaos.Storage.Postgres.{
  Database, as_rider_update, check_update, get_rider, set_rider, delete_rider,
}
use khaos.Storage.Postgres.Valid.{
  IsValidUpdate, eq_none_of_map, check_update-IsValidUpdate, set_rider-err, set_rider-ok,
  set_update-some,
}
use khaos.Storage.Postgres.Rows.{TableRow, IsPostgres, answer, key_of_argument, get_rider-answer}
use khaos.Storage.Postgres.Stored.{found_update, set_rider-Stored}

-- Two spellings of one UUID, by their canonical forms.
abbrev pub same_rider : Option GoString → Option GoString → Bool
same_rider (some k) (some j) = str_eq k j
same_rider k j = false

module _ {database : Database} (postgres : IsPostgres database) where
  open postgres use {canonical, table}

  -- The row that a Get reads, after a statement that gave the row of one rider another content.
  answer-changed :
      (key j k u u' : GoString) (content : Option TableRow) (db db' : database.Db)
      → canonical key ≡ some k
      → canonical j ≡ some u
      → canonical j ≡ some u'
      → ((i : GoString) → table db' i ≡ (if str_eq k i then content else table db i))
      → answer postgres j (table db' u) ≡ (
          if same_rider (canonical key) (canonical j)
          then answer postgres j content
          else answer postgres j (table db u'))
  answer-changed key j k u u' content db db' at_key at_j at_j' rows =
      let one : u ≡ u' = ground arith in
      elim (Bool-cases (str_eq k u)) [
        | inl e ↦ rw (rows u, at_key, at_j, e) refl
        | inr e ↦ rw (rows u, at_key, at_j, e) (ap (λ v. answer postgres j (table db v)) one)
      ]

-- Where the database runs the three statements as PostgreSQL runs statements of their forms on the
-- table of schema.sql: after a Set that reports no error, the value was a RiderUpdate with one of the
-- four states and no negative time of arrival, and its order_id a UUID; and a Get of any key that
-- reports no error finds that update, with the order_id in canonical form and one server time, if the
-- two keys spell one UUID, and otherwise what a Get without an error would have found before the Set.
pub set_rider-get_rider :
    {database : Database} (postgres : IsPostgres database) (ctx ctx' ctx'' : Context)
    (key : GoString) (value : Any) (db : database.Db) (j : GoString)
    → (set_rider database ctx key value db).1 ≡ none
    → (get_rider database ctx' j (set_rider database ctx key value db).0).err ≡ none
    → (get_rider database ctx'' j db).err ≡ none
    → (update : RiderUpdate) × (order : GoString) × (time : ℕ) × (as_rider_update value ≡ ok update)
      × IsValidUpdate update
      × (postgres.canonical update.order_id ≡ some order)
      × (get_rider database ctx' j (set_rider database ctx key value db).0 ≡ (
          if same_rider (postgres.canonical key) (postgres.canonical j)
          then found_update update order time
          else get_rider database ctx'' j db))
set_rider-get_rider {database} postgres ctx ctx' ctx'' key value db j done after before =
    let stored = set_rider-Stored postgres ctx key value db done in
    let (u, at_j, read) = get_rider-answer postgres ctx' j _ after in
    let (u', at_j', read') = get_rider-answer postgres ctx'' j db before in
    let changed =
      answer-changed postgres key j stored.k u u' (some stored.row) db
        (set_rider database ctx key value db).0 stored.key_canonical at_j at_j' stored.rows in
    (
      stored.update,
      stored.order,
      stored.time,
      stored.given,
      stored.valid,
      stored.order_canonical,
      rw (read, read', sym (stored.row_answer j)) changed,
    )

-- Where the database runs the three statements as PostgreSQL runs statements of their forms on the
-- table of schema.sql: after a Delete that reports no error, a Get that reports no error finds
-- nothing, if the two keys spell one UUID, and otherwise what a Get without an error would have found
-- before.
pub delete_rider-get_rider :
    {database : Database} (postgres : IsPostgres database) (ctx ctx' ctx'' : Context)
    (key : GoString) (db : database.Db) (j : GoString)
    → (delete_rider database ctx key db).1 ≡ none
    → (get_rider database ctx' j (delete_rider database ctx key db).0).err ≡ none
    → (get_rider database ctx'' j db).err ≡ none
    → get_rider database ctx' j (delete_rider database ctx key db).0 ≡ (
        if same_rider (postgres.canonical key) (postgres.canonical j)
        then record { value = nil; found = false; err = none }
        else get_rider database ctx'' j db)
unfolding delete_rider
delete_rider-get_rider {database} postgres ctx ctx' ctx'' key db j done after before =
    let arguments = string_value key ∷ [] in
    let (time, k, holds, rows) =
      postgres.exec_delete_deletes ctx delete_statement arguments db refl
        (eq_none_of_map (deleting_rider key) _ done) in
    let (u, at_j, read) = get_rider-answer postgres ctx' j _ after in
    let (u', at_j', read') = get_rider-answer postgres ctx'' j db before in
    let at_key = key_of_argument postgres.canonical key k holds in
    let changed = answer-changed postgres key j k u u' none db _ at_key at_j at_j' rows in
    rw (read, read') changed

-- A Set of a value that is not a RiderUpdate, or that has another state than the four or a negative
-- time of arrival, leaves any database as it was and reports an error.
pub set_rider_rejects :
    (database : Database) (ctx : Context) (key : GoString) (value : Any) (db : database.Db)
    → ¬ ((update : RiderUpdate) × (as_rider_update value ≡ ok update) × IsValidUpdate update)
    → ((set_rider database ctx key value db).0 ≡ db)
      × ((e : Error) × ((set_rider database ctx key value db).1 ≡ some e))
set_rider_rejects database ctx key value db bad = elim (Result-cases (as_rider_update value)) [
  | inr (c, e) ↦
      let r = set_rider-err database ctx key db value c e in
      (ap (λ p. p.0) r, (setting_rider key c, ap (λ p. p.1) r))
  | inl (u, e) ↦ elim (Option-cases (check_update key u)) [
    | inl passed ↦ absurd (bad (u, e, check_update-IsValidUpdate key u passed))
    | inr (c, refused) ↦
        let r =
          set_rider-ok database ctx key db value u e
          ∙ set_update-some database ctx key db u c refused in
        (ap (λ p. p.0) r, (c, ap (λ p. p.1) r))
  ]
]
