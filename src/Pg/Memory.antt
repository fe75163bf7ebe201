-- ===== src/Pg/Memory.antt =====
-- A server that never fails, which meets the laws of `Pg`: the concrete tables of the tests.
use loyalty_system.Prelude.{◌+◌, refl, length}
use loyalty_system.Errors.{ok}
use loyalty_system.Pg.Reliable.{IsReliable, reliable_laws}
use loyalty_system.Pg.{Env, Tables, Pg, PgLaws}

abbrev pub env_of : Tables → Env
env_of t = record { now = length t.orders + length t.withdrawals; new_id = 100 + length t.orders }

abbrev pub memory : Pg
memory = record {
  Server = Tables;
  Tx = Tables;
  tables = λ s. s;
  work = λ tx. tx;
  query = λ A stmt s. stmt (env_of s) s;
  begin = λ s. (ok s, s);
  exec = λ A stmt tx. stmt (env_of tx) tx;
  commit = λ tx s. (ok tt, tx);
  rollback = λ tx s. s;
}

unfoldable pub memory-IsReliable : IsReliable memory
memory-IsReliable = record {
  queries = λ A stmt s. (env_of s, refl, refl);
  begins = λ s. (s, refl, refl, refl);
  executes = λ A stmt tx. (env_of tx, refl, refl);
  commits = λ tx s. (refl, refl);
  rolls_back = λ tx s. refl;
}

pub memory-PgLaws : PgLaws memory
memory-PgLaws = reliable_laws memory memory-IsReliable
