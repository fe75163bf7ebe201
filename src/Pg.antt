-- ===== src/Pg.antt =====
-- PostgreSQL and its driver pgx, which the repositories call: a parameter of the model. The tables
-- are those of migrations/postgres/*.up.sql. A statement is its documented effect on the tables;
-- `Pg` says that the server has that effect or reports an error of its own.
pub mod Memory
pub mod Lookup
pub mod Sorting
pub mod Queries
pub mod Reads
pub mod Reliable
use loyalty_system.Prelude.{
  ℕ, zero, suc, ◌+◌, ◌≡◌, ◌⊎◌, Bool, true, false, ◌&&◌, Option, none, some, List, [], ◌∷◌, map,
  Text, any, leb, ◌==◌, if◌then◌else◌,
}
use loyalty_system.Prelude.Int.{ℤ}
use loyalty_system.Errors.{
  Error, foreign, sentinel, no_rows, unique_violation, Result, ok, err, Exec,
}

-- The values of the enum `order_status`; also `order.Status` of internal/order/order.go.
pub data Status : Type 0 where
  new processing invalid processed : Status

-- The columns of the five tables. NUMERIC amounts are whole numbers of the smallest unit in use.
pub record UserRow : Type 0 where
  pub id : ℕ
  pub login : Text
  pub password : Text

pub record OrderRow : Type 0 where
  pub id : ℕ
  pub user_id : ℕ
  pub number : Text
  pub status : Status
  pub accrual : Option ℤ
  pub uploaded_at : ℕ

pub record BalanceRow : Type 0 where
  pub user_id : ℕ
  pub current : ℤ
  pub withdrawn : ℤ

pub record WithdrawalRow : Type 0 where
  pub user_id : ℕ
  pub order_number : Text
  pub sum : ℤ
  pub processed_at : ℕ

pub record AccrualRow : Type 0 where
  pub order_id : ℕ
  pub user_id : ℕ
  pub amount : ℤ
  pub credited_at : ℕ

pub record Tables : Type 0 where
  pub users : List UserRow
  pub orders : List OrderRow
  pub user_balance : List BalanceRow
  pub withdrawals : List WithdrawalRow
  pub balance_accruals : List AccrualRow

-- What NOW() and gen_random_uuid() give to one statement.
pub record Env : Type 0 where
  pub now : ℕ
  pub new_id : ℕ

-- What a statement does when the server executes it.
abbrev pub Stmt : Type 0 → Type 0
Stmt A = Env → Exec Tables A

-- The foreign keys on `users (id)` and `orders (id)`, and the error of a statement that breaks one.
abbrev pub has_user : ℕ → Tables → Bool
has_user user_id t = any (λ row. row.id == user_id) t.users

abbrev pub has_order : ℕ → Tables → Bool
has_order order_id t = any (λ row. row.id == order_id) t.orders

abbrev pub foreign_key_violation : Error
foreign_key_violation = foreign 23503

module _ {R : Type 0} where
  -- The rows that satisfy a WHERE clause.
  abbrev pub select : (R → Bool) → List R → List R
  select p [] = []
  select p (r ∷ rs) = let rest = select p rs in if p r then r ∷ rest else rest

  -- UPDATE … SET … WHERE …: the new rows, and how many were affected.
  abbrev pub update : (R → Bool) → (R → R) → List R → List R
  update p f [] = []
  update p f (r ∷ rs) = (if p r then f r else r) ∷ update p f rs

  abbrev pub affected : (R → Bool) → List R → ℕ
  affected p [] = 0
  affected p (r ∷ rs) = (if p r then 1 else 0) + affected p rs

  -- ORDER BY: `before s r` says that `s` must come before `r`.
  abbrev pub insert_by : (R → R → Bool) → R → List R → List R
  insert_by before r [] = r ∷ []
  insert_by before r (s ∷ rs) = if before s r then s ∷ insert_by before r rs else r ∷ s ∷ rs

  abbrev pub order_by : (R → R → Bool) → List R → List R
  order_by before [] = []
  order_by before (r ∷ rs) = insert_by before r (order_by before rs)

  abbrev pub limit : ℕ → List R → List R
  limit zero rs = []
  limit (suc n) [] = []
  limit (suc n) (r ∷ rs) = r ∷ limit n rs

-- `pgx.CollectOneRow`: the first row, or `pgx.ErrNoRows`.
abbrev pub one_row : {A : Type 0} → List A → Result A
one_row [] = err (sentinel no_rows)
one_row (r ∷ rs) = ok r

-- How a call on the server may end: with the statement's reply and effect, or with an error of the
-- server or the driver (a lost connection, a foreign key, …) and no effect.
abbrev pub Executes : {A : Type 0} → Stmt A → Env → Tables → Result A → Tables → Type 0
Executes stmt env before r after =
    ((r ≡ (stmt env before).0) × (after ≡ (stmt env before).1))
    ⊎ ((n : ℕ) × (r ≡ err (foreign n)) × (after ≡ before))

-- A statement outside a transaction commits by itself, so an error may also come after its effect.
abbrev pub Answers : {A : Type 0} → Stmt A → Env → Tables → Result A → Tables → Type 0
Answers stmt env before r after =
    ((r ≡ (stmt env before).0) × (after ≡ (stmt env before).1))
    ⊎ ((n : ℕ) × (r ≡ err (foreign n)) × ((after ≡ before) ⊎ (after ≡ (stmt env before).1)))

pub record Pg : Type 1 where
  pub Server : Type 0
  pub Tx : Type 0
  -- the committed tables; the tables as an open transaction sees them
  pub tables : Server → Tables
  pub work : Tx → Tables
  pub query : (A : Type 0) → Stmt A → Exec Server A
  pub begin : Exec Server Tx
  pub exec : (A : Type 0) → Stmt A → Exec Tx A
  pub commit : Tx → Exec Server (Unit {0})
  pub rollback : Tx → Server → Server

-- The documented behaviour of the server that the repositories rely on. Transactions are serial:
-- between `Begin` and the end no other session changes the tables.
pub record PgLaws (pg : Pg) : Type 1 where
  pub query_answers :
      (A : Type 0) (stmt : Stmt A) (s : pg.Server)
      → (env : Env) × Answers stmt env
          (pg.tables s)
          (pg.query A stmt s).0
          (pg.tables (pg.query A stmt s).1)
  pub begin_keeps : (s : pg.Server) → pg.tables (pg.begin s).1 ≡ pg.tables s
  pub begin_reply :
      (s : pg.Server)
      → ((tx : pg.Tx) × ((pg.begin s).0 ≡ ok tx) × (pg.work tx ≡ pg.tables s))
        ⊎ ((n : ℕ) × ((pg.begin s).0 ≡ err (foreign n)))
  pub exec_executes :
      (A : Type 0) (stmt : Stmt A) (tx : pg.Tx)
      → (env : Env) × Executes stmt env
          (pg.work tx)
          (pg.exec A stmt tx).0
          (pg.work (pg.exec A stmt tx).1)
  -- A commit that succeeds publishes the transaction's tables. One that reports an error may have
  -- published them too: the connection can be lost before the answer comes.
  pub commit_publishes :
      (tx : pg.Tx) (s : pg.Server)
      → (((pg.commit tx s).0 ≡ ok tt) × (pg.tables (pg.commit tx s).1 ≡ pg.work tx))
        ⊎ ((n : ℕ) × ((pg.commit tx s).0 ≡ err (foreign n))
            × ((pg.tables (pg.commit tx s).1 ≡ pg.work tx)
                ⊎ (pg.tables (pg.commit tx s).1 ≡ pg.tables s)))
  pub rollback_keeps : (tx : pg.Tx) (s : pg.Server) → pg.tables (pg.rollback tx s) ≡ pg.tables s
