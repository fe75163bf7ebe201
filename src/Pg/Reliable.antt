-- ===== src/Pg/Reliable.antt =====
-- A server that does not fail: what `PgLaws` leaves open is closed, so that a theorem can say that a
-- call succeeds.
use loyalty_system.Prelude.{◌≡◌, inl}
use loyalty_system.Errors.{ok}
use loyalty_system.Pg.{Pg, PgLaws, Env, Stmt}

pub record IsReliable (pg : Pg) : Type 1 where
  pub queries :
      (A : Type 0) (stmt : Stmt A) (s : pg.Server)
      → (env : Env) × ((pg.query A stmt s).0 ≡ (stmt env (pg.tables s)).0)
        × (pg.tables (pg.query A stmt s).1 ≡ (stmt env (pg.tables s)).1)
  pub begins :
      (s : pg.Server)
      → (tx : pg.Tx) × ((pg.begin s).0 ≡ ok tx)
        × (pg.work tx ≡ pg.tables s)
        × (pg.tables (pg.begin s).1 ≡ pg.tables s)
  pub executes :
      (A : Type 0) (stmt : Stmt A) (tx : pg.Tx)
      → (env : Env) × ((pg.exec A stmt tx).0 ≡ (stmt env (pg.work tx)).0)
        × (pg.work (pg.exec A stmt tx).1 ≡ (stmt env (pg.work tx)).1)
  pub commits :
      (tx : pg.Tx) (s : pg.Server)
      → ((pg.commit tx s).0 ≡ ok tt) × (pg.tables (pg.commit tx s).1 ≡ pg.work tx)
  pub rolls_back : (tx : pg.Tx) (s : pg.Server) → pg.tables (pg.rollback tx s) ≡ pg.tables s

-- Such a server meets the laws.
pub reliable_laws : (pg : Pg) → IsReliable pg → PgLaws pg
reliable_laws pg rel = record {
  query_answers =
      λ A stmt s. let (env, reply, after) = rel.queries A stmt s in (env, inl (reply, after));
  begin_keeps = λ s. (rel.begins s).3;
  begin_reply = λ s. let (tx, reply, same, kept) = rel.begins s in inl (tx, reply, same);
  exec_executes =
      λ A stmt tx. let (env, reply, after) = rel.executes A stmt tx in (env, inl (reply, after));
  commit_publishes = λ tx s. inl (rel.commits tx s);
  rollback_keeps = λ tx s. rel.rolls_back tx s;
}
