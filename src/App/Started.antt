-- ===== src/App/Started.antt =====
-- How `initialize` of cmd/gophermart/di/app.go ends, and what it leaves in the application and the world.
use loyalty_system.Prelude.{ℕ, ◌≡◌, Option, none, some, String, []}
use loyalty_system.Prelude.Int.{ℤ, pos}
use loyalty_system.Prelude.Strings.{bytes}
use loyalty_system.Errors.{Error, wrap, foreign, ok, err, done, fault}
use loyalty_system.Config.{Config, UrlLib, database_dsn, poll_interval_duration}
use loyalty_system.Config.Loader.{OsLib, KoanfLib, FlagLib, load, new_loader}
use loyalty_system.Migrator.{MigrateLib, migrate_from_embedded_fs}
use loyalty_system.AccrualClient.Client.{new_client}
use loyalty_system.Worker.Config.{new_accrual_worker_pool}
use loyalty_system.App.Startup.{StartupLib, App, Outcome}

module _ {E : Type 0} (lib : StartupLib E) (os : OsLib E) (koanf : KoanfLib E) (flag_lib : FlagLib)
    (url_lib : UrlLib) (migrations : MigrateLib E) (postgres : migrations.Fs) where
  -- An application without a server and without workers.
  abbrev partial : Option Config → Option lib.Logger → Option lib.Pool → App lib.Logger lib.Pool
  partial cfg logger db = record {
    cfg = cfg;
    logger = logger;
    db = db;
    server = none;
    accrual_pool = none;
  }

  abbrev pub stopped :
      String
      → Error
      → Option Config
      → Option lib.Logger
      → Option lib.Pool
      → E
      → Outcome lib.Logger lib.Pool E
  stopped message e cfg logger db w = record {
    error = some (wrap message e);
    app = partial cfg logger db;
    world = w;
  }

  abbrev pub complete :
      Config → lib.Logger → lib.Pool → (ttl interval : ℤ) → E → Outcome lib.Logger lib.Pool E
  complete cfg logger pool ttl interval w = record {
    error = none;
    app = record {
      cfg = some cfg;
      logger = some logger;
      db = some pool;
      server = some (record {
        addr = cfg.server.run_address;
        jwt = record { secret = cfg.auth.secret; ttl = ttl };
        accrual_client = new_client (record {
          address = cfg.accrual.address;
          timeout = pos 0;
          retry_max = pos 0;
          retry_wait_min = pos 0;
          retry_wait_max = pos 0;
        });
      });
      accrual_pool = some (
          new_accrual_worker_pool lib.largest_queue (record {
            workers = cfg.accrual.workers;
            poll_interval = interval;
            poll_batch = pos 0;
          }));
    };
    world = w;
  }

  -- How far the initialization that began in the world `w` came, and the world it came to.
  module _ (w : E) (cfg : Config) where
    abbrev pub IsLoaded : Type 0
    IsLoaded = (load os koanf flag_lib w (new_loader os koanf flag_lib [])).0 ≡ ok cfg

    abbrev pub IsLogged : lib.Logger → E → Type 0
    IsLogged logger w1 =
        IsLoaded
        × (level : lib.Level) × (lib.parse_atomic_level (bytes "info") ≡ done level)
        × (lib.build level w ≡ (done logger, w1))

    abbrev pub migration : E → Option Error × E
    migration w1 =
        migrate_from_embedded_fs migrations postgres (bytes "postgres")
          (database_dsn url_lib cfg.storage) w1

    abbrev pub IsMigrated : lib.Logger → E → Type 0
    IsMigrated logger w2 = (w1 : E) × IsLogged logger w1 × (migration w1 ≡ (none, w2))

    abbrev pub IsConnected : lib.Logger → lib.Pool → E → Type 0
    IsConnected logger pool w3 =
        (w2 : E) × IsMigrated logger w2
        × (lib.new_pool (database_dsn url_lib cfg.storage) w2 ≡ (done pool, w3))

    abbrev pub IsAlive : lib.Logger → lib.Pool → E → Type 0
    IsAlive logger pool w4 =
        (w3 : E) × IsConnected logger pool w3 × (lib.ping pool w3 ≡ (done tt, w4))

  -- How the initialization ends.
  pub data Starts (w : E) (out : Outcome lib.Logger lib.Pool E) : Type 0 where
    bad_config :
        (e : Error)
        → (load os koanf flag_lib w (new_loader os koanf flag_lib [])).0 ≡ err e
        → out ≡ stopped "load config" e none none none w
        → Starts w out
    bad_level :
        (cfg : Config) (n : ℕ)
        → IsLoaded w cfg
        → lib.parse_atomic_level (bytes "info") ≡ fault n
        → out ≡ stopped "init logger" (foreign n) (some cfg) none none w
        → Starts w out
    no_logger :
        (cfg : Config) (level : lib.Level) (n : ℕ) (w1 : E)
        → IsLoaded w cfg
        → lib.parse_atomic_level (bytes "info") ≡ done level
        → lib.build level w ≡ (fault n, w1)
        → out ≡ stopped "init logger" (foreign n) (some cfg) none none w1
        → Starts w out
    not_migrated :
        (cfg : Config) (logger : lib.Logger) (e : Error) (w1 w2 : E)
        → IsLogged w cfg logger w1
        → migration w cfg w1 ≡ (some e, w2)
        → out ≡ stopped "run migrations" e (some cfg) (some logger) none w2
        → Starts w out
    no_pool :
        (cfg : Config) (logger : lib.Logger) (n : ℕ) (w2 w3 : E)
        → IsMigrated w cfg logger w2
        → lib.new_pool (database_dsn url_lib cfg.storage) w2 ≡ (fault n, w3)
        → out ≡ stopped "connect postgres" (foreign n) (some cfg) (some logger) none w3
        → Starts w out
    -- the pool is closed
    no_ping :
        (cfg : Config) (logger : lib.Logger) (pool : lib.Pool) (n : ℕ) (w3 w4 : E)
        → IsConnected w cfg logger pool w3
        → lib.ping pool w3 ≡ (fault n, w4)
        → out
          ≡ stopped "ping postgres" (foreign n) (some cfg) (some logger) none (lib.close pool w4)
        → Starts w out
    -- the pool stays open
    bad_ttl :
        (cfg : Config) (logger : lib.Logger) (pool : lib.Pool) (n : ℕ) (w4 : E)
        → IsAlive w cfg logger pool w4
        → lib.parse_duration cfg.auth.ttl ≡ fault n
        → out ≡ stopped "parse auth ttl" (foreign n) (some cfg) (some logger) (some pool) w4
        → Starts w out
    bad_interval :
        (cfg : Config) (logger : lib.Logger) (pool : lib.Pool) (ttl : ℤ) (e : Error) (w4 : E)
        → IsAlive w cfg logger pool w4
        → lib.parse_duration cfg.auth.ttl ≡ done ttl
        → poll_interval_duration lib.parse_duration cfg.accrual ≡ err e
        → out ≡ stopped "parse accrual poll interval" e (some cfg) (some logger) (some pool) w4
        → Starts w out
    started :
        (cfg : Config) (logger : lib.Logger) (pool : lib.Pool) (ttl interval : ℤ) (w4 : E)
        → IsAlive w cfg logger pool w4
        → lib.parse_duration cfg.auth.ttl ≡ done ttl
        → poll_interval_duration lib.parse_duration cfg.accrual ≡ ok interval
        → out ≡ complete cfg logger pool ttl interval w4
        → Starts w out
