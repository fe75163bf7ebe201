-- ===== src/Migrator/Outcome.antt =====
-- The connection attempts of pkg/pgmigrator/migrator.go, and when a migration gives no error.
use loyalty_system.Prelude.{
  subst, ℕ, zero, suc, ◌<◌, ◌≡◌, refl, ap, ◌∙◌, sym, ◌⊎◌, inl, inr, ◌↔◌, true, Option, none, some,
  Text, Bool-cases, arith, ◌++◌,
}
use loyalty_system.Prelude.Strings.{bytes}
use loyalty_system.Errors.{Error, Reply, done, fault, Reply-cases, no_change, errors_is}
use loyalty_system.Migrator.{
  MigrateLib, connect, run_up, up_result, errors_join, migrate, migrate_from_embedded_fs,
  with_driver,
}

module _ {E : Type 0} (lib : MigrateLib E) (dial : E → Reply lib.Migrate × E) where
  -- The world after `k` attempts and the second's sleep after each.
  abbrev pub after_rounds : ℕ → E → E
  after_rounds zero e = e
  after_rounds (suc k) e = after_rounds k (lib.sleep 1 (dial e).1)

  -- The first `k` attempts fail.
  abbrev pub FailsFor : ℕ → E → Type 0
  FailsFor zero e = Unit
  FailsFor (suc k) e =
      ((code : ℕ) × ((dial e).0 ≡ fault code)) × FailsFor k (lib.sleep 1 (dial e).1)

  -- The attempt after `k` failed ones is the first to connect, with fewer than `n` before it.
  pub record ConnectsAt (n k : ℕ) (m : lib.Migrate) (e e' : E) : Type 0 where
    pub within : k < n
    pub failed : FailsFor k e
    pub connected : dial (after_rounds k e) ≡ (done m, e')

  pub connect-ConnectsAt :
      (n k code : ℕ) (m : lib.Migrate) (e e' : E)
      → k < n
      → FailsFor k e
      → dial (after_rounds k e) ≡ (done m, e')
      → connect lib dial n code e ≡ (done m, e')
  unfolding connect
  connect-ConnectsAt zero k code m e e' h f c = absurd (omega arith)
  connect-ConnectsAt (suc n) zero code m e e' h f c =
      let c' : dial e ≡ (done m, e') = c in
      rw (c', connect) (ap (λ (r : Reply lib.Migrate × E). (done m, r.1)) c')
  connect-ConnectsAt (suc n) (suc k) code m e e' h f c =
      rw (f.0.1, connect)
        (connect-ConnectsAt n k f.0.0 m (lib.sleep 1 (dial e).1) e' (omega arith) f.1 c)

  -- The loop over `n` attempts ends, with the first attempt that connects and after no other, or with an
  -- error when `n` attempts have failed, each followed by a second's sleep.
  pub connect_cases :
      (n code : ℕ) (e : E)
      → ((k : ℕ) × (m : lib.Migrate) × (e' : E) × ConnectsAt n k m e e'
          × (connect lib dial n code e ≡ (done m, e')))
        ⊎ (FailsFor n e × ((c : ℕ) × (connect lib dial n code e ≡ (fault c, after_rounds n e))))
  unfolding connect
  connect_cases zero code e = inr (tt, (code, refl))
  connect_cases (suc n) code e = elim (Reply-cases (dial e).0) [
    | inl (m, up) ↦ inl (
      0,
      m,
      (dial e).1,
      record { within = omega arith; failed = tt; connected = ap (λ r. (r, (dial e).1)) up },
      rw (up, connect) refl,
    )
    | inr (c, down) ↦ elim (connect_cases n c (lib.sleep 1 (dial e).1)) [
      | inl (k, m, e', at, eq) ↦ inl (
        suc k,
        m,
        e',
        record {
          within = omega (arith, at.within);
          failed = ((c, down), at.failed);
          connected = at.connected;
        },
        rw (down, connect) eq,
      )
      | inr (f, (d, eq)) ↦ inr (((c, down), f), (d, rw (down, connect) eq))
    ]
  ]

-- `m.Up()` gave no error, or `migrate.ErrNoChange`.
pub data IsUpToDate : Option Error → Type 0 where
  changed : IsUpToDate none
  unchanged : (err : Error) → errors_is err no_change ≡ true → IsUpToDate (some err)

-- Some attempt of `n` connects, the schema is brought up to date or is already, and the connection to
-- the database is closed without an error.
pub record Migrates {E : Type 0} (lib : MigrateLib E) (dial : E → Reply lib.Migrate × E) (n : ℕ)
    (e : E) : Type 0 where
  pub round : ℕ
  pub m : lib.Migrate
  pub e' : E
  pub connects : ConnectsAt lib dial n round m e e'
  pub up_to_date : IsUpToDate (lib.up m e').0
  pub closed : (lib.close m (lib.up m e').1).0.1 ≡ none

module _ {E : Type 0} (lib : MigrateLib E) where
  join_none : (a b : Option Error) → errors_join a b ≡ none → (a ≡ none) × (b ≡ none)
  join_none none none h = (refl, refl)
  join_none (some a) none h = cc
  join_none none (some b) h = cc
  join_none (some a) (some b) h = cc

  up_result-none : (o : Option Error) → up_result lib o ≡ none → IsUpToDate o
  up_result-none none h = changed
  up_result-none (some x) h = elim (Bool-cases (errors_is x no_change)) [
    | inl same ↦ unchanged x same
    | inr other ↦ cc
  ]

  IsUpToDate-none : (o : Option Error) → IsUpToDate o → up_result lib o ≡ none
  IsUpToDate-none none changed = refl
  IsUpToDate-none (some x) (unchanged err same) = rw same refl

  run_up_iff :
      (dial : E → Reply lib.Migrate × E) (n : ℕ) (e : E)
      → ((run_up lib (connect lib dial n 0 e)).0 ≡ none) ↔ Migrates lib dial n e
  run_up_iff dial n e = (
    λ h. elim (connect_cases lib dial n 0 e) [
      | inl (k, m, e', at, eq) ↦
          let parts : (up_result lib (lib.up m e').0 ≡ none)
              × ((lib.close m (lib.up m e').1).0.1 ≡ none) =
            join_none _ _ (ap (λ r. (run_up lib r).0) (sym eq) ∙ h) in
          record {
            round = k;
            m = m;
            e' = e';
            connects = at;
            up_to_date = up_result-none _ parts.0;
            closed = parts.1;
          }
      | inr (f, (c, eq)) ↦ cc
    ],
    λ g.
        let eq =
          connect-ConnectsAt lib dial n g.round 0 g.m e g.e' g.connects.within g.connects.failed
            g.connects.connected in
        rw (eq, IsUpToDate-none _ g.up_to_date, g.closed) refl,
  )

  -- `Migrate` returns no error exactly when one of 20 attempts to connect succeeds, with a second's sleep
  -- after each failed one, `Up` then gives no error or `ErrNoChange`, and closing the connection to the
  -- database gives none; what closing the source of the migrations gives is not looked at.
  pub migrate-none_iff :
      (dsn path : Text) (e : E)
      → ((migrate lib dsn path e).0 ≡ none)
        ↔ Migrates lib (lib.new (bytes "file://" ++ path) dsn) 20 e
  unfolding migrate
  migrate-none_iff dsn path e = run_up_iff (lib.new (bytes "file://" ++ path) dsn) 20 e

  -- `MigrateFromEmbeddedFS` returns no error exactly when the embedded directory can be read and, over it,
  -- one of 20 attempts to connect succeeds, `Up` then gives no error or `ErrNoChange`, and closing the
  -- connection to the database gives none.
  pub migrate_from_embedded_fs-none_iff :
      (fs : lib.Fs) (path dsn : Text) (e : E)
      → ((migrate_from_embedded_fs lib fs path dsn e).0 ≡ none) ↔ (
          (d : lib.Driver) × (lib.iofs_new fs path ≡ done d)
          × Migrates lib (lib.new_with_source d dsn) 20 e)
  unfolding migrate_from_embedded_fs
  migrate_from_embedded_fs-none_iff fs path dsn e = elim (Reply-cases (lib.iofs_new fs path)) [
    | inl (d, opened) ↦ (
      λ h. (
        d,
        opened,
        (run_up_iff (lib.new_with_source d dsn) 20 e).0
            (subst (λ r. (with_driver lib r dsn e).0 ≡ none) opened h),
      ),
      λ g.
          let again : lib.iofs_new fs path ≡ done g.0 = g.1 in
          rw again ((run_up_iff (lib.new_with_source g.0 dsn) 20 e).1 g.2),
    )
    | inr (c, broken) ↦ (λ h. cc, λ g. let other : lib.iofs_new fs path ≡ done g.0 = g.1 in cc)
  ]
