-- ===== src/App/Startup/Tests.antt =====
-- A start of the application whose world is the list of what was done to the database, and the theorem of the
-- initialization on it.
use loyalty_system.Prelude.{ℕ, ◌≡◌, refl, false, List, [], ◌∷◌, none, some, text_eq, ◌++◌}
use loyalty_system.Prelude.Int.{pos}
use loyalty_system.Errors.{sentinel, no_change, done}
use loyalty_system.Config.{UrlLib, default_config, poll_interval_duration}
use loyalty_system.Config.Loader.{OsLib, KoanfLib, FlagLib, load, load_flags, load_standard_env}
use loyalty_system.Migrator.{MigrateLib, connect, migrate_from_embedded_fs}
use loyalty_system.App.Startup.{StartupLib, Outcome, initialize, new_app, graceful_shutdown}

abbrev World : Type 0
World = List ℕ

abbrev os : OsLib World
os = record { args = λ w. []; getenv = λ name w. []; is_not_exist = λ path w. false }

abbrev koanf : KoanfLib World
koanf = record {
  Koanf = Unit;
  Provider = Unit;
  new = λ delim. tt;
  structs = λ c. tt;
  yaml_file = λ path. tt;
  env = λ prefix key. tt;
  load = λ p w k. done tt;
  set = λ key value k. k;
  unmarshal = λ k. done default_config;
}

abbrev flags : FlagLib
flags = record { parse = λ defined args. done [] }

abbrev urls : UrlLib
urls = record { join_host_port = λ h p. h ++ p; encode = λ q. []; to_string = λ u. u.host }

abbrev migrator : MigrateLib World
migrator = record {
  Migrate = Unit;
  Fs = Unit;
  Driver = Unit;
  new = λ source_url dsn w. (done tt, w);
  new_with_source = λ driver dsn w. (done tt, w);
  iofs_new = λ fs path. done tt;
  up = λ m w. (some (sentinel no_change), 1 ∷ w);
  close = λ m w. ((none, none), 2 ∷ w);
  sleep = λ seconds w. w;
}

abbrev parts : StartupLib World
parts = record {
  Level = Unit;
  Logger = Unit;
  Pool = Unit;
  parse_atomic_level = λ level. done tt;
  build = λ level w. (done tt, w);
  sync = λ logger w. w;
  new_pool = λ dsn w. (done tt, 3 ∷ w);
  ping = λ pool w. (done tt, 4 ∷ w);
  close = λ pool w. 5 ∷ w;
  shutdown = λ w. 6 ∷ w;
  parse_duration = λ text. done (pos 1);
  largest_queue = 4096;
}

abbrev start : Outcome (Unit {0}) (Unit {0}) World
start =
    initialize parts os koanf flags urls migrator tt (new_app parts os koanf flags urls migrator tt)
      []

start_test : (start.error ≡ none) × (start.world ≡ 4 ∷ 3 ∷ 2 ∷ 1 ∷ [])
unfolding initialize load load_standard_env load_flags migrate_from_embedded_fs connect
    poll_interval_duration text_eq
start_test = (refl, refl)

stop_test :
    graceful_shutdown parts os koanf flags urls migrator tt start.app start.world
    ≡ 5 ∷ 6 ∷ 4 ∷ 3 ∷ 2 ∷ 1 ∷ []
unfolding graceful_shutdown initialize load load_standard_env load_flags migrate_from_embedded_fs
    connect poll_interval_duration text_eq
stop_test = refl
