-- ===== src/Values.antt =====
-- The values that the engine moves about (`any`, with the payload types of postgres_storage.go) and
-- the errors of every file, one constructor for each place that makes one, with its arguments.
use khaos.Prelude.{ℕ, GoString, Option}
use khaos.Prelude.Int.{ℤ}

-- A float64 is its bit pattern and a time a count of microseconds: neither is computed with.
pub record RiderUpdate : Type 0 where
  pub order_id : GoString
  pub latitude : ℕ
  pub longitude : ℕ
  pub current_status : GoString
  pub eta_minutes : ℤ

pub record RiderRecord : Type 0 where
  pub rider_update : RiderUpdate
  pub updated_at : ℕ

-- A Go interface value: its dynamic type and value. `other` is any further type, by its %T name.
pub data Any : Type 0 where
  nil : Any
  rider_update : RiderUpdate → Any
  rider_update_ptr : Option RiderUpdate → Any
  rider_record : RiderRecord → Any
  other : (type_name : GoString) (value : ℕ) → Any

pub data Error : Type 0 where
  -- context.Canceled and context.DeadlineExceeded
  canceled deadline_exceeded : Error
  -- workerpool.go
  unknown_operation_type_at_execution : Error
  -- hazard.go
  not_dense : (position seq_id : ℕ) → Error
  unknown_operation_type : (type seq_id : ℕ) → Error
  -- postgres_storage.go
  preparing_get preparing_set preparing_delete : (cause : Error) → Error
  getting_rider setting_rider deleting_rider : (key : GoString) (cause : Error) → Error
  invalid_current_status : (key status : GoString) → Error
  eta_minutes_negative : (key : GoString) (minutes : ℤ) → Error
  nil_rider_update : Error
  not_rider_update : (type_name : GoString) → Error
  -- server.go
  seq_id_out_of_range : (seq_id size : ℕ) → Error
  duplicate_seq_id : (seq_id : ℕ) → Error
  unknown_operation_type_name : (raw : GoString) → Error
  at_seq_id : (seq_id : ℕ) (cause : Error) → Error
  rider_id_required : (seq_id : ℕ) → Error
  payload_required : (seq_id : ℕ) → Error
  missing_seq_id : (seq_id : ℕ) → Error
  invalid_json_body failed_to_build_graph worker_pool_error : (cause : Error) → Error
  batch_timeout_exceeded : Error
  server_closed closing_storage_engine : Error
  http_server_error http_server_shutdown graceful_shutdown_failed : (cause : Error) → Error
  http_server_error_during_shutdown : (cause : Error) → Error
  -- api/main.go
  db_password_required : Error
  configuration_error opening_database giving_up database_not_reachable : (cause : Error) → Error
  initializing_storage_engine server_exited : (cause : Error) → Error
  -- an error of a package outside the repository
  foreign : (code : ℕ) → Error
