-- ===== src/App/Startup.antt =====
-- `NewApp`, `initialize` and the beginning of `Run` of cmd/gophermart/di/app.go, and `New` of
-- internal/logger/logger.go. pgxpool, zap and `time.ParseDuration` are parameters; the repositories, services
-- and handlers that `initialize` makes are records over the pool, and stand in other files.
mod Tests
use loyalty_system.Prelude.{ℕ, Option, none, some, String, Text, []}
use loyalty_system.Prelude.Int.{ℤ, pos, pos_part}
use loyalty_system.Prelude.Strings.{bytes}
use loyalty_system.Errors.{Error, wrap, foreign, Result, ok, err, Reply, done, fault, result_of}
use loyalty_system.Config.{Config, UrlLib, database_dsn, poll_interval_duration}
use loyalty_system.Config.Loader.{OsLib, KoanfLib, FlagLib, load, new_loader}
use loyalty_system.Migrator.{MigrateLib, migrate_from_embedded_fs}
use loyalty_system.Auth.{Jwt}
use loyalty_system.AccrualClient.Client.{AccrualClient, new_client}
use loyalty_system.Worker.Config.{WorkerPoolConfig, Made, panics, made, new_accrual_worker_pool}
use loyalty_system.App.Lifecycle.{System, launched}

-- `zap.ParseAtomicLevel` and `Build`, pgxpool, `http.Server.Shutdown` and `time.ParseDuration`.
pub record StartupLib (E : Type 0) : Type 1 where
  pub Level : Type 0
  pub Logger : Type 0
  pub Pool : Type 0
  pub parse_atomic_level : Text → Reply Level
  pub build : Level → E → Reply Logger × E
  pub sync : Logger → E → E
  pub new_pool : (dsn : Text) → E → Reply Pool × E
  pub ping : Pool → E → Reply (Unit {0}) × E
  pub close : Pool → E → E
  pub shutdown : E → E
  pub parse_duration : Text → Reply ℤ
  -- the largest size that `make` accepts for the workers' channel
  pub largest_queue : ℕ

-- The server's address, and what its handlers and the workers were given of the configuration.
pub record Server : Type 0 where
  pub addr : Text
  pub jwt : Jwt
  pub accrual_client : AccrualClient

pub record App (Logger Pool : Type 0) : Type 0 where
  pub cfg : Option Config
  pub logger : Option Logger
  pub db : Option Pool
  pub server : Option Server
  pub accrual_pool : Option Made

-- The error that is returned, the application and the world.
pub record Outcome (Logger Pool E : Type 0) : Type 0 where
  pub error : Option Error
  pub app : App Logger Pool
  pub world : E

module _ {E : Type 0} (lib : StartupLib E) (os : OsLib E) (koanf : KoanfLib E) (flag_lib : FlagLib)
    (url_lib : UrlLib) (migrations : MigrateLib E) (postgres : migrations.Fs) where
  abbrev pub A : Type 0
  A = App lib.Logger lib.Pool

  abbrev pub O : Type 0
  O = Outcome lib.Logger lib.Pool E

  abbrev pub fails : String → Error → A → E → O
  fails message e a w = record { error = some (wrap message e); app = a; world = w }

  abbrev pub with_level : Reply lib.Level → E → Reply lib.Logger × E
  with_level (done level) w = lib.build level w
  with_level (fault n) w = (fault n, w)

  abbrev pub new_logger : (level : Text) → E → Reply lib.Logger × E
  new_logger level = with_level (lib.parse_atomic_level level)

  -- The end of `initialize`.
  abbrev pub assembled : Config → (ttl interval : ℤ) → A → E → O
  assembled cfg ttl interval a w = record {
    error = none;
    app = record a {
      accrual_pool = some (
          new_accrual_worker_pool lib.largest_queue (record {
            workers = cfg.accrual.workers;
            poll_interval = interval;
            poll_batch = pos 0;
          }));
      server = some (record {
        addr = cfg.server.run_address;
        jwt = record { secret = cfg.auth.secret; ttl = ttl };
        accrual_client = new_client (record {
          address = cfg.accrual.address;
          timeout = pos 0;
          retry_max = pos 0;
          retry_wait_min = pos 0;
          retry_wait_max = pos 0;
        });
      });
    };
    world = w;
  }

  -- `initialize` from the result of each call that can fail, the last call first.
  abbrev pub with_interval : Config → (ttl : ℤ) → Result ℤ → A → E → O
  with_interval cfg ttl (ok interval) a w = assembled cfg ttl interval a w
  with_interval cfg ttl (err e) a w = fails "parse accrual poll interval" e a w

  abbrev pub with_ttl : Config → Reply ℤ → A → E → O
  with_ttl cfg (done ttl) a w =
      with_interval cfg ttl (poll_interval_duration lib.parse_duration cfg.accrual) a w
  with_ttl cfg (fault n) a w = fails "parse auth ttl" (foreign n) a w

  abbrev pub pinged : Config → lib.Pool → Reply (Unit {0}) × E → A → O
  pinged cfg pool (done _, w) a =
      with_ttl cfg (lib.parse_duration cfg.auth.ttl) (record a { db = some pool }) w
  pinged cfg pool (fault n, w) a = fails "ping postgres" (foreign n) a (lib.close pool w)

  abbrev pub with_pool : Config → Reply lib.Pool × E → A → O
  with_pool cfg (done pool, w) a = pinged cfg pool (lib.ping pool w) a
  with_pool cfg (fault n, w) a = fails "connect postgres" (foreign n) a w

  abbrev pub migrated : Config → Option Error × E → A → O
  migrated cfg (none, w) a = with_pool cfg (lib.new_pool (database_dsn url_lib cfg.storage) w) a
  migrated cfg (some e, w) a = fails "run migrations" e a w

  abbrev pub with_logger : Config → Reply lib.Logger × E → A → O
  with_logger cfg (done logger, w) a =
      migrated cfg
        (migrate_from_embedded_fs migrations postgres (bytes "postgres")
          (database_dsn url_lib cfg.storage) w)
        (record a { logger = some logger })
  with_logger cfg (fault n, w) a = fails "init logger" (foreign n) a w

  abbrev pub with_config : Result Config → A → E → O
  with_config (ok cfg) a w =
      with_logger cfg (new_logger (bytes "info") w) (record a { cfg = some cfg })
  with_config (err e) a w = fails "load config" e a w

  unfoldable pub initialize : A → E → O
  initialize a w = with_config (load os koanf flag_lib w (new_loader os koanf flag_lib [])).0 a w

  abbrev pub new_app : A
  new_app = record { cfg = none; logger = none; db = none; server = none; accrual_pool = none }

  abbrev pub shut_server : Option Server → E → E
  shut_server none w = w
  shut_server (some s) w = lib.shutdown w

  abbrev pub close_pool : Option lib.Pool → E → E
  close_pool none w = w
  close_pool (some pool) w = lib.close pool w

  abbrev pub sync_logger : Option lib.Logger → E → E
  sync_logger none w = w
  sync_logger (some logger) w = lib.sync logger w

  -- The function that `NewApp` returns beside the application.
  unfoldable pub graceful_shutdown : A → E → E
  graceful_shutdown a w = sync_logger a.logger (close_pool a.db (shut_server a.server w))
