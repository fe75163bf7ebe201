-- ===== src/Pg/Reads.antt =====
-- Queries that only read, through `Pg.query`.
use loyalty_system.Prelude.{ℕ, ◌≡◌, ap, ◌∙◌, ◌⊎◌, inl, inr}
use loyalty_system.Errors.{foreign, Result, err}
use loyalty_system.Pg.{Pg, PgLaws, Stmt, Tables, Env}

-- A statement that leaves the tables and replies by them leaves the server's tables, and replies by
-- them or with an error of the server's own.
pub query-reads :
    (pg : Pg) (laws : PgLaws pg) {A : Type 0} (stmt : Stmt A) (reply : Tables → Result A)
    → ((env : Env) (t : Tables) → stmt env t ≡ (reply t, t))
    → (s : pg.Server)
    → (pg.tables (pg.query A stmt s).1 ≡ pg.tables s)
      × (((pg.query A stmt s).0 ≡ reply (pg.tables s))
          ⊎ ((n : ℕ) × ((pg.query A stmt s).0 ≡ err (foreign n))))
query-reads pg laws {A} stmt reply pure_stmt s =
    let (env, outcome) = laws.query_answers A stmt s in
    let e = pure_stmt env (pg.tables s) in
    let kept = ap (λ (x : Result A × Tables). x.1) e in
    elim outcome [
      | inl (replied, after) ↦ (after ∙ kept, inl (replied ∙ ap (λ (x : Result A × Tables). x.0) e))
      | inr (n, failed, inl after) ↦ (after, inr (n, failed))
      | inr (n, failed, inr after) ↦ (after ∙ kept, inr (n, failed))
    ]
