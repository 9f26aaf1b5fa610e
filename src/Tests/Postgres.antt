-- ===== src/Tests/Postgres.antt =====
-- The PostgreSQL engine over a table of riders.
use khaos.Prelude.{
  ℕ, ◌≡◌, refl, GoString, text, str_eq, Option, none, some, false, GoMap, empty, if◌then◌else◌, [],
  ◌↔◌,
}
use khaos.Prelude.Int.{pos}
use khaos.Values.{RiderUpdate, rider_update, rider_update_ptr, nil, Error, canceled}
use khaos.Result.{ok}
use khaos.Storage.Postgres.{
  valid_rider_statuses, as_rider_update, check_update, get_rider, set_update, set_rider,
  delete_rider,
}
use khaos.Storage.Postgres.Valid.{IsValidUpdate}
use khaos.Storage.Postgres.Rows.{TableRow}
use khaos.Storage.Postgres.Stored.{found_update}
use khaos.Storage.Postgres.Outcome.{
  same_rider, set_rider-get_rider, delete_rider-get_rider, set_rider_rejects,
}
use khaos.Storage.Postgres.Statements.{
  Query, get_query, set_query, delete_query, none_open, all_open, new_postgres_storage_engine,
  close_engine, new_postgres_storage_engine-open,
}
use khaos.Tests.RiderTable.{riders}
use khaos.Tests.RiderTable.Laws.{riders-IsPostgres}

abbrev rider_1 : GoString
rider_1 = text "6f1a2b3c-0000-4000-8000-00000000000a"

-- The same UUID.
abbrev rider_1_upper : GoString
rider_1_upper = text "6F1A2B3C-0000-4000-8000-00000000000A"

abbrev rider_2 : GoString
rider_2 = text "6f1a2b3c-0000-4000-8000-00000000000b"

abbrev order_upper : GoString
order_upper = text "0000000A-0000-4000-8000-000000000001"

abbrev order_lower : GoString
order_lower = text "0000000a-0000-4000-8000-000000000001"

abbrev en_route : RiderUpdate
en_route = record {
  order_id = order_upper;
  latitude = 1;
  longitude = 2;
  current_status = text "EN_ROUTE";
  eta_minutes = pos 12;
}

abbrev no_riders : GoMap TableRow
no_riders = empty

-- The order_id comes back as the column has it.
read_back :
    get_rider riders none rider_1_upper
      (set_rider riders none rider_1 (rider_update en_route) no_riders).0
    ≡ found_update en_route order_lower 7
unfolding get_rider set_rider set_update as_rider_update check_update valid_rider_statuses str_eq
read_back = refl

set_rider-get_rider_example :
    (u : RiderUpdate) × (order : GoString) × (time : ℕ) × (as_rider_update (rider_update en_route)
      ≡ ok u)
    × IsValidUpdate u
    × (riders-IsPostgres.canonical u.order_id ≡ some order)
    × (get_rider riders none rider_1_upper
          (set_rider riders none rider_1 (rider_update en_route) no_riders).0
        ≡ (if same_rider
              (riders-IsPostgres.canonical rider_1)
              (riders-IsPostgres.canonical rider_1_upper)
            then found_update u order time
            else get_rider riders none rider_1_upper no_riders))
unfolding get_rider set_rider set_update as_rider_update check_update valid_rider_statuses str_eq
set_rider-get_rider_example =
    set_rider-get_rider riders-IsPostgres none none none rider_1 (rider_update en_route) no_riders
      rider_1_upper refl refl refl

abbrev one_rider : GoMap TableRow
unfolding set_rider set_update as_rider_update check_update valid_rider_statuses str_eq
one_rider = (set_rider riders none rider_1 (rider_update en_route) no_riders).0

-- The rider is deleted by the other spelling of its key.
delete_rider-get_rider_example :
    get_rider riders none rider_1 (delete_rider riders none rider_1_upper one_rider).0 ≡ (
      if same_rider
        (riders-IsPostgres.canonical rider_1_upper)
        (riders-IsPostgres.canonical rider_1)
      then record { value = nil; found = false; err = none }
      else get_rider riders none rider_1 one_rider)
unfolding one_rider get_rider delete_rider str_eq
delete_rider-get_rider_example =
    delete_rider-get_rider riders-IsPostgres none none none rider_1_upper one_rider rider_1 refl
      refl refl

nil_pointer_rejected :
    ¬ ((u : RiderUpdate) × (as_rider_update (rider_update_ptr none) ≡ ok u) × IsValidUpdate u)
unfolding as_rider_update
nil_pointer_rejected (u, e, valid) = cc

set_rider_rejects_example :
    ((set_rider riders none rider_1 (rider_update_ptr none) no_riders).0 ≡ no_riders)
    × ((e : Error) × ((set_rider riders none rider_1 (rider_update_ptr none) no_riders).1 ≡ some e))
set_rider_rejects_example =
    set_rider_rejects riders none rider_1 (rider_update_ptr none) no_riders nil_pointer_rejected

abbrev set_fails : Query → Option Error
set_fails get_query = none
set_fails set_query = some canceled
set_fails delete_query = none

new_postgres_storage_engine-open_example :
    ((e : Error)
      → (new_postgres_storage_engine set_fails none_open).1 ≡ some e
      → (new_postgres_storage_engine set_fails none_open).0 ≡ none_open)
    × ((new_postgres_storage_engine set_fails none_open).1 ≡ none
        → ((new_postgres_storage_engine set_fails none_open).0 ≡ all_open)
          × ((close_engine set_fails all_open).0 ≡ none_open))
    × (((close_engine set_fails all_open).1 ≡ []) ↔ ((q : Query) → set_fails q ≡ none))
new_postgres_storage_engine-open_example = new_postgres_storage_engine-open set_fails set_fails
