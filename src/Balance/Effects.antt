-- ===== src/Balance/Effects.antt =====
-- What the transactions of internal/balance/repo.go do to the tables, on every path through them,
-- whatever the server does within its documented behaviour.
use loyalty_system.Prelude.{ℕ, ◌≡◌, refl, ◌⊎◌, inl, inr, String, subst}
use loyalty_system.Errors.{Error, wrap, foreign, Result, ok, err, Exec}
use loyalty_system.Pg.{Pg, PgLaws, Tables}
use loyalty_system.Balance.{Ending, commits, returns, in_transaction, after_body}

-- An error of the server or the driver, under the message that the code puts before it.
abbrev pub IsInternal : Error → Type 0
IsInternal e = (message : String) × (n : ℕ) × (e ≡ wrap message (foreign n))

abbrev pub AfterBody :
    Result Ending → (worked before : Tables) → Result (Unit {0}) → Tables → Type 0
AfterBody (ok commits) worked before r after =
    ((r ≡ ok tt) × (after ≡ worked))
    ⊎ ((e : Error) × (r ≡ err e) × IsInternal e × ((after ≡ worked) ⊎ (after ≡ before)))
AfterBody (ok returns) worked before r after = (r ≡ ok tt) × (after ≡ before)
AfterBody (err e) worked before r after = (r ≡ err e) × (after ≡ before)

module _ (pg : Pg) (laws : PgLaws pg) where
  after_body-AfterBody :
      (tx : pg.Tx) (r : Result Ending) (s : pg.Server)
      → let (out, s') = after_body pg tx r s in
        AfterBody r (pg.work tx) (pg.tables s) out (pg.tables s')
  after_body-AfterBody tx (ok commits) s = elim (laws.commit_publishes tx s) [
    | inl (reply, done) ↦ inl (rw reply, done)
    | inr (n, reply, maybe) ↦ inr (
      wrap "failed to commit transaction" (foreign n),
      rw reply,
      ("failed to commit transaction", n, refl),
      maybe,
    )
  ]
  after_body-AfterBody tx (ok returns) s = (refl, laws.rollback_keeps tx s)
  after_body-AfterBody tx (err e) s = (refl, laws.rollback_keeps tx s)

  -- A transaction either cannot begin, or ends as its body says.
  pub in_transaction-cases :
      (body : Exec pg.Tx Ending) (s : pg.Server)
      → let (out, s') = in_transaction pg body s in
        ((e : Error) × (out ≡ err e) × IsInternal e × (pg.tables s' ≡ pg.tables s))
        ⊎ ((tx : pg.Tx) × (pg.work tx ≡ pg.tables s)
            × AfterBody (body tx).0 (pg.work (body tx).1) (pg.tables s) out (pg.tables s'))
  unfolding in_transaction
  in_transaction-cases body s = elim (laws.begin_reply s) [
    | inl (tx, reply, same) ↦ inr (
      tx,
      same,
      rw reply (
          subst
            (λ before.
              AfterBody (body tx).0 (pg.work (body tx).1) before
                (after_body pg (body tx).1 (body tx).0 (pg.begin s).1).0
                (pg.tables (after_body pg (body tx).1 (body tx).0 (pg.begin s).1).1))
            (laws.begin_keeps s) (after_body-AfterBody (body tx).1 (body tx).0 (pg.begin s).1)),
    )
    | inr (n, reply) ↦ inl (
      wrap "failed to begin transaction" (foreign n),
      rw reply,
      ("failed to begin transaction", n, refl),
      rw reply (laws.begin_keeps s),
    )
  ]
