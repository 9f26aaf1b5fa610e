-- ===== src/Tests/Process.antt =====
-- A gateway that runs with the defaults, reaches its database at the second ping and is then stopped.
use khaos.Prelude.{
  ◌≡◌, ◌≢◌, ◌↔◌, ◌⊎◌, refl, text, str_eq, List, [], ◌∷◌, ◌++◌, Option, none, some, true, false,
  if◌then◌else◌, All,
}
use khaos.Prelude.Int.{pos}
use mathlib.Core.Option
use khaos.Values.{Error, server_closed, foreign}
use khaos.Storage.Postgres.Statements.{
  Query, none_open, all_open, new_postgres_storage_engine, prepare_set, prepare_delete,
  close_engine,
}
use khaos.Server.Config.{new_server}
use khaos.Server.Lifecycle.{
  postgres, Ending, context_done, shutdown, run_server, has_shut_down, IsClean, run_server_closes,
}
use khaos.Gateway.{GatewayConfig, get_env, get_env_int, get_env_duration, load_config}
use khaos.Gateway.Process.{
  Round, wait_for_db, World, Process, disconnected, opened, server_config, serve, run_gateway,
}
use khaos.Gateway.Process.Correct.{HasServed, HasNotServed, run_gateway_lem}
use khaos.Gateway.Process.Waiting.{Waits, Decides, wait_for_db_lem}

abbrev quiet : Query → Option Error
quiet q = none

abbrev stopped : Ending
stopped = context_done none (some server_closed)

run_server_closes_example :
    let (engine, err) = run_server quiet stopped (postgres all_open) in
    (engine ≡ (if has_shut_down stopped then postgres none_open else postgres all_open))
    × (err ≡ none ↔ IsClean quiet stopped)
run_server_closes_example = run_server_closes quiet stopped all_open

abbrev pings : List Round
pings =
    record { ping = some (foreign 111); gives_up = false }
    ∷ record { ping = none; gives_up = false }
    ∷ []

wait_for_db_lem_example : wait_for_db pings ≡ some none ↔ (
    (before : List Round) × (r : Round) × (after : List Round) × (pings ≡ before ++ r ∷ after)
    × All Waits before
    × Decides r none)
wait_for_db_lem_example = wait_for_db_lem pings none

abbrev world : World
world = record {
  environment = λ key. if str_eq key (text "KHAOS_DB_PASSWORD") then text "pw" else [];
  atoi = λ s. none;
  parse_duration = λ s. none;
  opening = λ s. none;
  rounds = pings;
  preparing = quiet;
  ending = stopped;
  closing = quiet;
}

abbrev config : GatewayConfig
config = record {
  db_host = text "localhost";
  db_port = pos 5432;
  db_user = text "postgres";
  db_password = text "pw";
  db_name = text "khaos";
  db_ssl_mode = text "disable";
  db_max_open_conns = pos 25;
  db_max_idle_conns = pos 25;
  db_conn_max_lifetime = pos 300000000000;
  listen_addr = text ":8080";
  worker_count = pos 8;
  batch_timeout = pos 5000000000;
}

abbrev process : Process
process = record {
  database = some (disconnected (opened config));
  statements = none_open;
  served = some (new_server (server_config config));
}

runs : run_gateway world ≡ some (process, none)
unfolding run_gateway serve wait_for_db load_config run_server shutdown new_postgres_storage_engine
    prepare_set prepare_delete close_engine get_env get_env_int get_env_duration str_eq
runs = refl

run_gateway_lem_example :
    (Option.map (λ db. db.is_open) process.database ≢ some true)
    × (HasNotServed (process, none) ⊎ HasServed world (process, none))
run_gateway_lem_example = run_gateway_lem world process none runs
