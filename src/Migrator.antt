-- ===== src/Migrator.antt =====
-- pkg/pgmigrator/migrator.go: the schema is brought up to date before the server starts. The package
-- golang-migrate, its `iofs` source and `time.Sleep` are a parameter, `MigrateLib`; log lines are left
-- out.
mod Outcome
mod Tests
use loyalty_system.Prelude.{ℕ, zero, suc, Bool, Option, none, some, ◌++◌, Text, if◌then◌else◌}
use loyalty_system.Prelude.Strings.{bytes}
use loyalty_system.Errors.{Error, no_change, wrap, join, foreign, errors_is, Reply, done, fault}

-- `E` is the world with the database server in it. `up` gives the error of `m.Up()`, and `close` the
-- errors of the source and of the database.
pub record MigrateLib (E : Type 0) : Type 1 where
  pub Migrate : Type 0
  pub Fs : Type 0
  pub Driver : Type 0
  pub new : (source_url dsn : Text) → E → Reply Migrate × E
  pub new_with_source : (driver : Driver) (dsn : Text) → E → Reply Migrate × E
  pub iofs_new : Fs → (path : Text) → Reply Driver
  pub up : Migrate → E → Option Error × E
  pub close : Migrate → E → (Option Error × Option Error) × E
  pub sleep : (seconds : ℕ) → E → E

-- `errors.Join` of two errors: the message of a single one is its own.
abbrev pub errors_join : Option Error → Option Error → Option Error
errors_join none none = none
errors_join (some a) none = some (wrap "" a)
errors_join none (some b) = some (wrap "" b)
errors_join (some a) (some b) = some (join a b)

abbrev pub attempts : ℕ
attempts = 20

module _ {E : Type 0} (lib : MigrateLib E) where
  -- The loop with `n` attempts left, of which there is one at least at the start: `code` is the error of
  -- the last attempt.
  unfoldable pub connect : (E → Reply lib.Migrate × E) → ℕ → (code : ℕ) → E → Reply lib.Migrate × E
  connect dial zero code e = (fault code, e)
  connect dial (suc n) code e =
      let (m, e') = dial e in
      elim m [ done m ↦ (done m, e') | fault c ↦ connect dial n c (lib.sleep 1 e') ]

  -- What `return` gives the deferred function.
  abbrev pub up_result : Option Error → Option Error
  up_result none = none
  up_result (some err) = if errors_is err no_change then none else some (wrap "migrate" err)

  abbrev pub run_up : Reply lib.Migrate × E → Option Error × E
  run_up (fault code, e) = (some (wrap "migrate" (foreign code)), e)
  run_up (done m, e) =
      let (err, e1) = lib.up m e in
      let (closed, e2) = lib.close m e1 in (errors_join (up_result err) closed.1, e2)

  unfoldable pub migrate : (dsn migrations_path : Text) → E → Option Error × E
  migrate dsn migrations_path e =
      run_up (connect (lib.new (bytes "file://" ++ migrations_path) dsn) attempts 0 e)

  abbrev pub with_driver : Reply lib.Driver → Text → E → Option Error × E
  with_driver (fault code) dsn e = (some (wrap "migrateFromEmbeddedFS" (foreign code)), e)
  with_driver (done d) dsn e = run_up (connect (lib.new_with_source d dsn) attempts 0 e)

  unfoldable pub migrate_from_embedded_fs :
      (fs : lib.Fs) (migrations_path dsn : Text) → E → Option Error × E
  migrate_from_embedded_fs fs migrations_path dsn e =
      with_driver (lib.iofs_new fs migrations_path) dsn e
