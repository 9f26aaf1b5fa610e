-- ===== src/Gateway/Process.antt =====
-- api/main.go: run and waitForDB. What the outside does (the environment, the database, the HTTP
-- server, signals) is a record of its results.
pub mod Correct
pub mod Waiting
use khaos.Prelude.{ℕ, GoString, List, [], ◌∷◌, Option, none, some, Bool, true, false}
use khaos.Prelude.Int.{ℤ, pos}
use mathlib.Core.Option
use khaos.Values.{
  Error, configuration_error, opening_database, giving_up, database_not_reachable,
  initializing_storage_engine, server_exited,
}
use khaos.Result.{Result, ok, err}
use khaos.Storage.Postgres.Statements.{Query, Statements, none_open, new_postgres_storage_engine}
use khaos.Server.Config.{ServerConfig, Server, new_server}
use khaos.Server.Lifecycle.{Engine, postgres, another, Ending, run_server}
use khaos.Gateway.{GatewayConfig, dsn, load_config}

-- One round of the loop of waitForDB: the ping, and whether the select takes the end of the context.
pub record Round : Type 0 where
  pub ping : Option Error
  pub gives_up : Bool

abbrev pub after_ping :
    Option Error → (gives_up : Bool) → Option (Option Error) → Option (Option Error)
after_ping none gives_up rest = some none
after_ping (some e) true rest = some (some (giving_up e))
after_ping (some e) false rest = rest

-- waitForDB: none while it waits.
unfoldable pub wait_for_db : List Round → Option (Option Error)
wait_for_db [] = none
wait_for_db (r ∷ rounds) = after_ping r.ping r.gives_up (wait_for_db rounds)

pub record World : Type 0 where
  pub environment : GoString → GoString
  pub atoi : GoString → Option ℤ
  pub parse_duration : GoString → Option ℤ
  pub opening : GoString → Option Error  -- sql.Open
  pub rounds : List Round
  pub preparing : Query → Option Error
  pub ending : Ending
  pub closing : Query → Option Error

-- The *sql.DB, as far as run sets it up.
pub record Database : Type 0 where
  pub is_open : Bool
  pub source : GoString
  pub max_open_conns : ℤ
  pub max_idle_conns : ℤ
  pub conn_max_lifetime : ℤ

-- What the process holds when run returns, and the server that it ran.
pub record Process : Type 0 where
  pub database : Option Database
  pub statements : Statements
  pub served : Option Server

-- Before the statements are prepared.
abbrev pub idle : Option Database → Process
idle database = record { database = database; statements = none_open; served = none }

-- sql.Open, and the settings after it.
unfoldable pub opened : GatewayConfig → Database
opened c = record {
  is_open = true;
  source = dsn c;
  max_open_conns = c.db_max_open_conns;
  max_idle_conns = c.db_max_idle_conns;
  conn_max_lifetime = c.db_conn_max_lifetime;
}

-- The argument of NewServer: the fields that are not given are zero.
unfoldable pub server_config : GatewayConfig → ServerConfig
server_config c = record {
  addr = c.listen_addr;
  worker_count = c.worker_count;
  batch_timeout = c.batch_timeout;
  read_timeout = pos 0;
  write_timeout = pos 0;
  idle_timeout = pos 0;
  max_body_bytes = pos 0;
}

-- `return fmt.Errorf("…: %w", err)`, if there is an error.
abbrev pub wrap : (Error → Error) → Option Error → Option Error
wrap around none = none
wrap around (some e) = some (around e)

abbrev pub statements_of : Engine → Statements
statements_of (postgres st) = st
statements_of another = none_open

abbrev pub disconnected : Database → Database
disconnected db = record db { is_open = false }

-- `defer db.Close()`
abbrev pub close_database : Process × Option Error → Process × Option Error
close_database (p, failure) = (record p { database = Option.map disconnected p.database }, failure)

module _ (w : World) where
  -- From NewServer on.
  unfoldable pub serve : GatewayConfig → Statements → Process × Option Error
  serve c st =
      let (engine, failure) = run_server w.closing w.ending (postgres st) in
      (
        record {
          database = some (opened c);
          statements = statements_of engine;
          served = some (new_server (server_config c));
        },
        wrap server_exited failure,
      )

  abbrev pub prepared_or_failed : GatewayConfig → Statements × Option Error → Process × Option Error
  prepared_or_failed c (st, none) = serve c st
  prepared_or_failed c (st, some e) = (
    record { database = some (opened c); statements = st; served = none },
    some (initializing_storage_engine e),
  )

  -- From waitForDB on.
  abbrev pub connect : GatewayConfig → Option (Option Error) → Option (Process × Option Error)
  connect c none = none
  connect c (some (some e)) = some (idle (some (opened c)), some (database_not_reachable e))
  connect c (some none) =
      some (prepared_or_failed c (new_postgres_storage_engine w.preparing none_open))

  abbrev pub open_database : GatewayConfig → Option Error → Option (Process × Option Error)
  open_database c (some e) = some (idle none, some (opening_database e))
  open_database c none = Option.map close_database (connect c (wait_for_db w.rounds))

  abbrev pub configured : Result GatewayConfig → Option (Process × Option Error)
  configured (err e) = some (idle none, some (configuration_error e))
  configured (ok c) = open_database c (w.opening (dsn c))

  -- run: none while waitForDB waits.
  unfoldable pub run_gateway : Option (Process × Option Error)
  unfolding serve
  run_gateway = configured (load_config w.environment w.atoi w.parse_duration)
