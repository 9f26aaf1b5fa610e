-- ===== src/Tests/Gateway.antt =====
-- A configuration with spaces, quotes and backslashes.
use khaos.Prelude.{
  ◌≡◌, ◌≢◌, refl, GoString, text, str_eq, [], ◌∷◌, ◌++◌, Option, none, some, if◌then◌else◌,
}
use khaos.Prelude.Decimal.{digits, decimal}
use khaos.Prelude.Int.{ℤ, pos}
use khaos.Values.{db_password_required}
use khaos.Result.{ok, err}
use khaos.Gateway.{GatewayConfig, backslash, quote, dsn, load_config}
use khaos.Gateway.Settings.{read_settings}
use khaos.Gateway.RoundTrip.{read_int, dsn-read_settings}
use khaos.Gateway.Load.{load_config_decides}

-- it's \
abbrev password : GoString
password = text "it" ++ quote ∷ text "s " ++ backslash ∷ []

abbrev config : GatewayConfig
config = record {
  db_host = text "localhost";
  db_port = pos 5432;
  db_user = [];
  db_password = password;
  db_name = text "khaos db";
  db_ssl_mode = text "disable";
  db_max_open_conns = pos 25;
  db_max_idle_conns = pos 25;
  db_conn_max_lifetime = pos 300000000000;
  listen_addr = text ":8080";
  worker_count = pos 8;
  batch_timeout = pos 5000000000;
}

port_digits : decimal (pos 5432) ≡ text "5432"
unfolding decimal digits
port_digits = refl

dsn-read_settings_example :
    (read_settings (dsn config)
      ≡ some (
          (text "host", text "localhost")
          ∷ (text "port", decimal (pos 5432))
          ∷ (text "user", [])
          ∷ (text "password", password)
          ∷ (text "dbname", text "khaos db")
          ∷ (text "sslmode", text "disable")
          ∷ []))
    × (read_int (decimal (pos 5432)) ≡ pos 5432)
dsn-read_settings_example = dsn-read_settings config

abbrev environment : GoString → GoString
environment key = if str_eq key (text "KHAOS_DB_PASSWORD") then password else []

abbrev no_number : GoString → Option ℤ
no_number s = none

load_config_decides_example :
    (environment (text "KHAOS_DB_PASSWORD") ≡ []
      → load_config environment no_number no_number ≡ err db_password_required)
    × (environment (text "KHAOS_DB_PASSWORD") ≢ []
        → (c : GatewayConfig) × (load_config environment no_number no_number ≡ ok c)
          × (c.db_password ≡ environment (text "KHAOS_DB_PASSWORD"))
          × (c.db_host ≢ [])
          × (c.db_user ≢ [])
          × (c.db_name ≢ [])
          × (c.db_ssl_mode ≢ [])
          × (c.listen_addr ≢ []))
load_config_decides_example = load_config_decides environment no_number no_number
