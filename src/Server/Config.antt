-- ===== src/Server/Config.antt =====
-- server.go: ServerConfig, NewServer and the Server that it makes.
use khaos.Prelude.{
  ℕ, zero, suc, ◌*◌, ◌^◌, ◌≡◌, refl, GoString, Bool, true, false, if◌then◌else◌, Bool-cases, inl,
  inr,
}
use khaos.Prelude.Int.{ℤ, pos, negsuc}

-- A time.Duration is its count of nanoseconds; `int` and `int64` values are the numbers they hold.
pub record ServerConfig : Type 0 where
  pub addr : GoString
  pub worker_count : ℤ
  pub batch_timeout : ℤ
  pub read_timeout : ℤ
  pub write_timeout : ℤ
  pub idle_timeout : ℤ
  pub max_body_bytes : ℤ

abbrev pub second : ℕ
second = 1000000000

abbrev pub default_worker_count : ℤ
default_worker_count = pos 8

abbrev pub default_batch_timeout : ℤ
default_batch_timeout = pos (5 * second)

abbrev pub default_read_timeout : ℤ
default_read_timeout = pos (10 * second)

abbrev pub default_write_timeout : ℤ
default_write_timeout = pos (15 * second)

abbrev pub default_idle_timeout : ℤ
default_idle_timeout = pos (60 * second)

abbrev pub default_max_body_bytes : ℤ
default_max_body_bytes = pos (2 * 2 ^ 20)

-- `x > 0`
abbrev pub is_positive : ℤ → Bool
is_positive (pos zero) = false
is_positive (pos (suc n)) = true
is_positive (negsuc n) = false

-- `if x <= 0 { x = d }`
unfoldable pub or_default : ℤ → ℤ → ℤ
or_default d x = if is_positive x then x else d

-- The defaults of NewServer.
unfoldable pub with_defaults : ServerConfig → ServerConfig
with_defaults cfg = record {
  addr = cfg.addr;
  worker_count = or_default default_worker_count cfg.worker_count;
  batch_timeout = or_default default_batch_timeout cfg.batch_timeout;
  read_timeout = or_default default_read_timeout cfg.read_timeout;
  write_timeout = or_default default_write_timeout cfg.write_timeout;
  idle_timeout = or_default default_idle_timeout cfg.idle_timeout;
  max_body_bytes = or_default default_max_body_bytes cfg.max_body_bytes;
}

-- The http.Server, and the limit that withMaxBody puts on the bodies of the one route.
pub record HttpServer : Type 0 where
  pub addr : GoString
  pub max_body_bytes : ℤ
  pub read_timeout : ℤ
  pub write_timeout : ℤ
  pub idle_timeout : ℤ

-- The resolver has no state, and the storage is kept by those who use it.
pub record Server : Type 0 where
  pub worker_count : ℤ
  pub batch_timeout : ℤ
  pub http_server : HttpServer

-- NewServer, after the defaults.
abbrev pub server_of : ServerConfig → Server
server_of cfg = record {
  worker_count = cfg.worker_count;
  batch_timeout = cfg.batch_timeout;
  http_server = record {
    addr = cfg.addr;
    max_body_bytes = cfg.max_body_bytes;
    read_timeout = cfg.read_timeout;
    write_timeout = cfg.write_timeout;
    idle_timeout = cfg.idle_timeout;
  };
}

unfoldable pub new_server : ServerConfig → Server
unfolding with_defaults
new_server cfg = server_of (with_defaults cfg)

or_default-is_positive : (d x : ℤ) → is_positive d ≡ true → is_positive (or_default d x) ≡ true
unfolding or_default
or_default-is_positive d x e = elim (Bool-cases (is_positive x)) [
  | inl given ↦ rw given given
  | inr missing ↦ rw missing e
]

-- No limit of a server is zero or negative.
abbrev pub HasLimits : Server → Type 0
HasLimits s =
    (is_positive s.worker_count ≡ true)
    × (is_positive s.batch_timeout ≡ true)
    × (is_positive s.http_server.read_timeout ≡ true)
    × (is_positive s.http_server.write_timeout ≡ true)
    × (is_positive s.http_server.idle_timeout ≡ true)
    × (is_positive s.http_server.max_body_bytes ≡ true)

pub new_server-HasLimits : (cfg : ServerConfig) → HasLimits (new_server cfg)
unfolding new_server
new_server-HasLimits cfg = (
  or_default-is_positive default_worker_count cfg.worker_count refl,
  or_default-is_positive default_batch_timeout cfg.batch_timeout refl,
  or_default-is_positive default_read_timeout cfg.read_timeout refl,
  or_default-is_positive default_write_timeout cfg.write_timeout refl,
  or_default-is_positive default_idle_timeout cfg.idle_timeout refl,
  or_default-is_positive default_max_body_bytes cfg.max_body_bytes refl,
)
