-- ===== src/Config.antt =====
-- internal/config/config.go and internal/config/defaults.go: the configuration, its defaults, the
-- interval of the scanner and the connection string. `time.ParseDuration` and the URL of net/url are
-- parameters.
pub mod Loader
pub mod Settings
pub mod Layers
pub mod Chain
pub mod Loaded
pub mod Precedence
pub mod Variables
mod Tests
use loyalty_system.Prelude.{
  ℕ, Option, none, some, ◌∷◌, [], Text, text_eq, List, if◌then◌else◌, ◌++◌,
}
use loyalty_system.Prelude.Int.{ℤ, pos}
use loyalty_system.Prelude.Strings.{bytes}
use loyalty_system.Errors.{Result, ok, Reply, result_of}

pub record ServerConfig : Type 0 where
  pub run_address : Text

pub record PostgresConfig : Type 0 where
  pub uri : Text
  pub host : Text
  pub port : Text
  pub database : Text
  pub user : Text
  pub password : Text

pub record AuthConfig : Type 0 where
  pub secret : Text
  pub ttl : Text

pub record AccrualConfig : Type 0 where
  pub address : Text
  pub workers : ℤ
  pub poll_interval : Text

pub record Config : Type 0 where
  pub server : ServerConfig
  pub storage : PostgresConfig
  pub auth : AuthConfig
  pub accrual : AccrualConfig

abbrev pub default_config : Config
default_config = record {
  server = record { run_address = bytes ":8080" };
  storage = record {
    uri = [];
    host = bytes "localhost";
    port = bytes "5432";
    database = bytes "loyalty-system";
    user = bytes "developer";
    password = bytes "my_pass";
  };
  auth = record { secret = bytes "loyalty-system-secret"; ttl = bytes "24h" };
  accrual = record {
    address = bytes "http://localhost:8082";
    workers = pos 3;
    poll_interval = bytes "10s";
  };
}

-- In nanoseconds; `parse_duration` is `time.ParseDuration`.
unfoldable pub poll_interval_duration : (parse_duration : Text → Reply ℤ) → AccrualConfig → Result ℤ
poll_interval_duration parse_duration c =
    if text_eq c.poll_interval []
    then ok (pos 10_000_000_000)
    else result_of (parse_duration c.poll_interval)

-- A `url.URL` with a user and a password, and the functions that the DSN takes from net and net/url.
pub record Url : Type 0 where
  pub scheme : Text
  pub user : Text × Text
  pub host : Text
  pub path : Text
  pub raw_query : Text

pub record UrlLib : Type 0 where
  pub join_host_port : (host port : Text) → Text
  pub encode : List (Text × Text) → Text
  pub to_string : Url → Text

unfoldable pub database_dsn : UrlLib → PostgresConfig → Text
database_dsn lib c =
    if text_eq c.uri []
    then lib.to_string (record {
      scheme = bytes "postgres";
      user = (c.user, c.password);
      host = lib.join_host_port c.host c.port;
      path = bytes "/" ++ c.database;
      raw_query = lib.encode ((bytes "sslmode", bytes "disable") ∷ []);
    })
    else c.uri
