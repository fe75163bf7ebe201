-- ===== src/Balance.antt =====
-- internal/balance/balance.go and repo.go: the points of a user, and the transactions that move them.
-- `float64` and NUMERIC amounts are whole numbers of the smallest unit in use, of either sign.
pub mod Effects
pub mod Ledger
pub mod Debit
pub mod Withdraw
pub mod Credit
pub mod Service
pub mod Handler
pub mod Responses
pub mod Listing
pub mod Success
mod Tests
use loyalty_system.Prelude.{
  ℕ, Bool, true, false, ◌&&◌, List, [], ◌∷◌, Text, text_eq, any, map, ltb, ◌==◌, if◌then◌else◌,
  String,
}
use loyalty_system.Prelude.Int.{ℤ, pos, ◌+ℤ◌, ◌-ℤ◌, leb_ℤ}
use loyalty_system.Errors.{
  Error, sentinel, wrap, insufficient_funds, withdrawal_already_exists, no_rows, unique_violation,
  errors_is, is_unique_violation, Result, ok, err, Exec, pure, raise, wrapping, ◌>>=◌, ◌>>◌,
}
use loyalty_system.Pg.{
  Pg, Stmt, Tables, BalanceRow, WithdrawalRow, AccrualRow, select, update, affected, order_by,
  one_row, has_user, has_order, foreign_key_violation,
}

pub record UserBalance : Type 0 where
  pub user_id : ℕ
  pub current : ℤ
  pub withdrawn : ℤ

pub record Withdrawal : Type 0 where
  pub order : Text
  pub sum : ℤ
  pub processed_at : ℕ

pub record WithdrawOpt : Type 0 where
  pub order : Text
  pub sum : ℤ

-- The UPDATE of `WithdrawBalance`: its WHERE clause, its SET clause, and the statement.
abbrev pub is_covered : ℕ → ℤ → BalanceRow → Bool
is_covered user_id sum row = (row.user_id == user_id) && leb_ℤ sum row.current

abbrev pub debit : ℤ → BalanceRow → BalanceRow
debit sum row = record row { current = row.current -ℤ sum; withdrawn = row.withdrawn +ℤ sum }

unfoldable pub update_user_balance : ℕ → WithdrawOpt → Stmt ℕ
update_user_balance user_id opt env t = (
  ok (affected (is_covered user_id opt.sum) t.user_balance),
  record t { user_balance = update (is_covered user_id opt.sum) (debit opt.sum) t.user_balance },
)

-- The constraint `withdrawals_user_order_unique`.
abbrev pub same_withdrawal : ℕ → Text → WithdrawalRow → Bool
same_withdrawal user_id order row = (row.user_id == user_id) && text_eq row.order_number order

abbrev pub withdrawal_row : ℕ → WithdrawOpt → ℕ → WithdrawalRow
withdrawal_row user_id opt now = record {
  user_id = user_id;
  order_number = opt.order;
  sum = opt.sum;
  processed_at = now;
}

unfoldable pub insert_withdrawal : ℕ → WithdrawOpt → Stmt (Unit {0})
insert_withdrawal user_id opt env t =
    if any (same_withdrawal user_id opt.order) t.withdrawals
    then (err unique_violation, t)
    else (ok tt, record t { withdrawals = withdrawal_row user_id opt env.now ∷ t.withdrawals })

-- The INSERT into balance_accruals, whose primary key is the order, with foreign keys to it and the user.
unfoldable pub insert_balance_accrual : (user_id order_id : ℕ) → ℤ → Stmt ℕ
insert_balance_accrual user_id order_id amount env t =
    if any (λ row. row.order_id == order_id) t.balance_accruals
    then (err unique_violation, t)
    else if has_order order_id t && has_user user_id t
    then (ok 1, record t { balance_accruals = row ∷ t.balance_accruals })
    else (err foreign_key_violation, t)
  where
    row : AccrualRow
    row = record { order_id = order_id; user_id = user_id; amount = amount; credited_at = env.now }

-- INSERT … ON CONFLICT (user_id) DO UPDATE SET current = user_balance.current + amount.
abbrev pub credit : ℤ → BalanceRow → BalanceRow
credit amount row = record row { current = row.current +ℤ amount }

abbrev pub upsert_row : ℕ → ℤ → List BalanceRow → List BalanceRow
upsert_row user_id amount rows =
    if any (λ row. row.user_id == user_id) rows
    then update (λ row. row.user_id == user_id) (credit amount) rows
    else record { user_id = user_id; current = amount; withdrawn = pos 0 } ∷ rows

unfoldable pub upsert_user_balance : ℕ → ℤ → Stmt (Unit {0})
upsert_user_balance user_id amount env t =
    (ok tt, record t { user_balance = upsert_row user_id amount t.user_balance })

abbrev pub balance_of : BalanceRow → UserBalance
balance_of row = record { user_id = row.user_id; current = row.current; withdrawn = row.withdrawn }

unfoldable pub balance_query : ℕ → Stmt UserBalance
balance_query user_id env t =
    (one_row (map balance_of (select (λ row. row.user_id == user_id) t.user_balance)), t)

abbrev pub newer : WithdrawalRow → WithdrawalRow → Bool
newer a b = ltb b.processed_at a.processed_at

abbrev pub withdrawal_of : WithdrawalRow → Withdrawal
withdrawal_of row = record {
  order = row.order_number;
  sum = row.sum;
  processed_at = row.processed_at;
}

unfoldable pub withdrawals_query : ℕ → Stmt (List Withdrawal)
withdrawals_query user_id env t = (
  ok (map withdrawal_of (order_by newer (select (λ row. row.user_id == user_id) t.withdrawals))),
  t,
)

-- How the body of a transaction ends when it ends without an error: at `tx.Commit`, or with an
-- early `return nil`, which leaves the rollback to the deferred call.
pub data Ending : Type 0 where
  commits returns : Ending

-- What to make of the reply to the two INSERTs.
abbrev pub withdrawal_reply : Result (Unit {0}) → Result Ending
withdrawal_reply (ok _) = ok commits
withdrawal_reply (err e) =
    if is_unique_violation e
    then err (sentinel withdrawal_already_exists)
    else err (wrap "failed to insert withdrawal" e)

abbrev pub accrual_reply : Result ℕ → Result Ending
accrual_reply (ok rows_affected) = if rows_affected == 0 then ok returns else ok commits
accrual_reply (err e) =
    if is_unique_violation e then ok returns else err (wrap "failed to insert balance accrual" e)

abbrev pub replied : {W A B : Type 0} → (Result A → Result B) → Exec W A → Exec W B
replied f m w = let (r, w') = m w in (f r, w')

module _ (pg : Pg) where
  -- `Begin`, the deferred `Rollback` and `Commit`, as `WithdrawBalance` and `CreditAccrual` use
  -- them. After a commit the deferred rollback finds the transaction closed.
  abbrev pub after_body : pg.Tx → Result Ending → Exec pg.Server (Unit {0})
  after_body tx (ok commits) s = wrapping "failed to commit transaction" (pg.commit tx) s
  after_body tx (ok returns) s = (ok tt, pg.rollback tx s)
  after_body tx (err e) s = (err e, pg.rollback tx s)

  abbrev pub run_body : Exec pg.Tx Ending → Result pg.Tx → Exec pg.Server (Unit {0})
  run_body body (ok tx) s = let (r, tx') = body tx in after_body tx' r s
  run_body body (err e) s = (err (wrap "failed to begin transaction" e), s)

  pub in_transaction : Exec pg.Tx Ending → Exec pg.Server (Unit {0})
  in_transaction body s = let (r, s') = pg.begin s in run_body body r s'

  pub withdraw_body : ℕ → WithdrawOpt → Exec pg.Tx Ending
  withdraw_body user_id opt = do
    rows_affected ←
        wrapping "failed to update user balance" (pg.exec ℕ (update_user_balance user_id opt))
    if rows_affected == 0
        then raise (sentinel insufficient_funds)
        else replied withdrawal_reply (pg.exec Unit (insert_withdrawal user_id opt))

  unfoldable pub withdraw_balance : ℕ → WithdrawOpt → Exec pg.Server (Unit {0})
  unfolding in_transaction withdraw_body
  withdraw_balance user_id opt = in_transaction (withdraw_body user_id opt)

  abbrev pub credit_if : Ending → ℕ → ℤ → Exec pg.Tx Ending
  credit_if returns user_id amount = pure returns
  credit_if commits user_id amount = do
    wrapping "failed to upsert user balance" (pg.exec Unit (upsert_user_balance user_id amount))
    pure commits

  pub credit_body : (user_id order_id : ℕ) → ℤ → Exec pg.Tx Ending
  credit_body user_id order_id amount = do
    ending ← replied accrual_reply (pg.exec ℕ (insert_balance_accrual user_id order_id amount))
    credit_if ending user_id amount

  unfoldable pub credit_accrual : (user_id order_id : ℕ) → ℤ → Exec pg.Server (Unit {0})
  unfolding in_transaction credit_body
  credit_accrual user_id order_id amount =
      if leb_ℤ amount (pos 0) then pure tt else in_transaction (credit_body user_id order_id amount)

  abbrev pub balance_reply : ℕ → Result UserBalance → Result UserBalance
  balance_reply user_id (ok b) = ok b
  balance_reply user_id (err e) =
      if errors_is e no_rows
      then ok (record { user_id = user_id; current = pos 0; withdrawn = pos 0 })
      else err (wrap "failed to collect balance" e)

  unfoldable pub select_balance : ℕ → Exec pg.Server UserBalance
  select_balance user_id =
      replied (balance_reply user_id) (pg.query UserBalance (balance_query user_id))

  unfoldable pub select_withdrawals : ℕ → Exec pg.Server (List Withdrawal)
  select_withdrawals user_id =
      wrapping "failed to collect orders" (pg.query (List Withdrawal) (withdrawals_query user_id))
