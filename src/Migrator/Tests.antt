-- ===== src/Migrator/Tests.antt =====
-- A server that refuses a number of connections before it is up, and the theorems of the migrator on it.
use loyalty_system.Prelude.{ℕ, zero, suc, ◌-◌, ◌≡◌, refl, ◌⊎◌, ◌↔◌, none, some, []}
use loyalty_system.Prelude.Strings.{bytes}
use loyalty_system.Errors.{sentinel, foreign, no_change, wrap, Reply, done, fault}
use loyalty_system.Migrator.{MigrateLib, connect, migrate, migrate_from_embedded_fs}
use loyalty_system.Migrator.Outcome.{
  ConnectsAt, FailsFor, after_rounds, Migrates, connect_cases, migrate_from_embedded_fs-none_iff,
}

-- The world is the number of attempts that the server still refuses, one fewer after each second.
abbrev dial_toy : ℕ → Reply Unit × ℕ
dial_toy zero = (done tt, zero)
dial_toy (suc n) = (fault 7, suc n)

abbrev slow_server : MigrateLib ℕ
slow_server = record {
  Migrate = Unit;
  Fs = Unit;
  Driver = Unit;
  new = λ source_url dsn. dial_toy;
  new_with_source = λ driver dsn. dial_toy;
  iofs_new = λ fs path. done tt;
  up = λ m e. (some (sentinel no_change), e);
  close = λ m e. ((some (foreign 3), none), e);
  sleep = λ seconds e. e - seconds;
}

migrate_test : migrate slow_server [] [] 19 ≡ (none, 0)
unfolding migrate connect
migrate_test = refl

migrate_late_test : migrate slow_server [] [] 20 ≡ (some (wrap "migrate" (foreign 7)), 0)
unfolding migrate connect
migrate_late_test = refl

connect_cases_example :
    ((k : ℕ) × (m : Unit) × (e' : ℕ) × ConnectsAt slow_server dial_toy 20 k m 3 e'
      × (connect slow_server dial_toy 20 0 3 ≡ (done m, e')))
    ⊎ (FailsFor slow_server dial_toy 20 3
        × ((c : ℕ) × (connect slow_server dial_toy 20 0 3
              ≡ (fault c, after_rounds slow_server dial_toy 20 3))))
connect_cases_example = connect_cases slow_server dial_toy 20 0 3

migrate_from_embedded_fs-none_iff_example :
    ((migrate_from_embedded_fs slow_server tt (bytes ".") (bytes "postgres://db") 3).0 ≡ none) ↔ (
      (d : Unit) × (slow_server.iofs_new tt (bytes ".") ≡ done d)
      × Migrates slow_server dial_toy 20 3)
migrate_from_embedded_fs-none_iff_example =
    migrate_from_embedded_fs-none_iff slow_server tt (bytes ".") (bytes "postgres://db") 3
