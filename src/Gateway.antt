-- ===== src/Gateway.antt =====
-- api/main.go: the configuration of the gateway from the environment, and the connection string.
pub mod Settings
pub mod RoundTrip
pub mod Load
pub mod Process
use khaos.Prelude.{
  ℕ, zero, suc, ◌+◌, ◌*◌, ◌/◌, ◌%◌, GoString, text, List, [], ◌∷◌, ◌++◌, Option, none, some, Bool,
  true, false, ◌==◌, if◌then◌else◌,
}
use khaos.Prelude.Decimal.{decimal}
use khaos.Prelude.Int.{ℤ, pos, negsuc}
use khaos.Values.{Error, db_password_required}
use khaos.Result.{Result, ok, err}
use khaos.Server.Config.{second}

-- A time.Duration is its count of nanoseconds.
pub record GatewayConfig : Type 0 where
  pub db_host : GoString
  pub db_port : ℤ
  pub db_user : GoString
  pub db_password : GoString
  pub db_name : GoString
  pub db_ssl_mode : GoString
  pub db_max_open_conns : ℤ
  pub db_max_idle_conns : ℤ
  pub db_conn_max_lifetime : ℤ
  pub listen_addr : GoString
  pub worker_count : ℤ
  pub batch_timeout : ℤ

abbrev pub or_else {ℓ} : {A : Type ℓ} → A → Option A → A
or_else fallback none = fallback
or_else fallback (some x) = x

-- os.Getenv gives [] for what is not set; strconv.Atoi and time.ParseDuration give none for an error.
module _ (environment : GoString → GoString) (atoi parse_duration : GoString → Option ℤ) where
  -- `if v := os.Getenv(key); v != "" { return v }`
  abbrev pub env_or : GoString → GoString → GoString
  env_or fallback [] = fallback
  env_or fallback (c ∷ v) = c ∷ v

  unfoldable pub get_env : GoString → GoString → GoString
  get_env key fallback = env_or fallback (environment key)

  abbrev pub parsed_or : (GoString → Option ℤ) → ℤ → GoString → ℤ
  parsed_or parse fallback [] = fallback
  parsed_or parse fallback (c ∷ v) = or_else fallback (parse (c ∷ v))

  unfoldable pub get_env_int : GoString → ℤ → ℤ
  get_env_int key fallback = parsed_or atoi fallback (environment key)

  unfoldable pub get_env_duration : GoString → ℤ → ℤ
  get_env_duration key fallback = parsed_or parse_duration fallback (environment key)

  abbrev pub with_password : GatewayConfig → GoString → Result GatewayConfig
  with_password cfg [] = err db_password_required
  with_password cfg (c ∷ password) = ok cfg

  unfoldable pub load_config : Result GatewayConfig
  unfolding get_env get_env_int get_env_duration
  load_config =
      let password = environment (text "KHAOS_DB_PASSWORD") in
      with_password
        (record {
          db_host = get_env (text "KHAOS_DB_HOST") (text "localhost");
          db_port = get_env_int (text "KHAOS_DB_PORT") (pos 5432);
          db_user = get_env (text "KHAOS_DB_USER") (text "postgres");
          db_password = password;
          db_name = get_env (text "KHAOS_DB_NAME") (text "khaos");
          db_ssl_mode = get_env (text "KHAOS_DB_SSLMODE") (text "disable");
          db_max_open_conns = get_env_int (text "KHAOS_DB_MAX_OPEN_CONNS") (pos 25);
          db_max_idle_conns = get_env_int (text "KHAOS_DB_MAX_IDLE_CONNS") (pos 25);
          db_conn_max_lifetime =
              get_env_duration (text "KHAOS_DB_CONN_MAX_LIFETIME") (pos (300 * second));
          listen_addr = get_env (text "KHAOS_LISTEN_ADDR") (text ":8080");
          worker_count = get_env_int (text "KHAOS_WORKER_COUNT") (pos 8);
          batch_timeout = get_env_duration (text "KHAOS_BATCH_TIMEOUT") (pos (5 * second));
        })
        password

abbrev pub backslash : ℕ
backslash = 92

abbrev pub quote : ℕ
quote = 39

-- strings.ReplaceAll of one byte.
unfoldable pub replace_all : (old : ℕ) (new : GoString) → GoString → GoString
replace_all old new [] = []
replace_all old new (c ∷ s) =
    let rest = replace_all old new s in (if c == old then new else c ∷ []) ++ rest

unfoldable pub escape : GoString → GoString
escape s =
    quote
      ∷ replace_all quote (backslash ∷ quote ∷ [])
          (replace_all backslash (backslash ∷ backslash ∷ []) s)
    ++ quote ∷ []

-- The pieces of a format, one after another.
abbrev pub concat : List GoString → GoString
concat [] = []
concat (s ∷ pieces) = s ++ concat pieces

unfoldable pub dsn : GatewayConfig → GoString
dsn c = concat (
    text "host="
    ∷ escape c.db_host
    ∷ text " port="
    ∷ decimal c.db_port
    ∷ text " user="
    ∷ escape c.db_user
    ∷ text " password="
    ∷ escape c.db_password
    ∷ text " dbname="
    ∷ escape c.db_name
    ∷ text " sslmode="
    ∷ escape c.db_ssl_mode
    ∷ [])
