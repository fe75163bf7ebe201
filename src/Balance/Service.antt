-- ===== src/Balance/Service.antt =====
-- internal/balance/service.go: the order number of a withdrawal is checked before the repository is
-- called; the other methods pass the repository's result on.
use loyalty_system.Prelude.{ℕ, not, List, if◌then◌else◌}
use loyalty_system.Prelude.Int.{ℤ}
use loyalty_system.Errors.{sentinel, invalid_order_number, Result, ok, err, Exec, raise}
use loyalty_system.Luhn.{valid}
use loyalty_system.Pg.{Pg}
use loyalty_system.Balance.{
  UserBalance, Withdrawal, WithdrawOpt, withdraw_balance, credit_accrual, select_balance,
  select_withdrawals,
}

pub record RepoProvider (W : Type 0) : Type 0 where
  pub withdraw_balance : ℕ → WithdrawOpt → Exec W (Unit {0})
  pub select_balance : ℕ → Exec W UserBalance
  pub select_withdrawals : ℕ → Exec W (List Withdrawal)
  pub credit_accrual : (user_id order_id : ℕ) → ℤ → Exec W (Unit {0})

-- `if err != nil { return …, err }; return value, nil`
abbrev pub passed_on : {A : Type 0} → Result A → Result A
passed_on (ok a) = ok a
passed_on (err e) = err e

module _ {W : Type 0} (repo : RepoProvider W) where
  unfoldable pub service_withdraw : ℕ → WithdrawOpt → Exec W (Unit {0})
  service_withdraw user_id opt =
      if not (valid opt.order)
      then raise (sentinel invalid_order_number)
      else repo.withdraw_balance user_id opt

  abbrev pub service_credit : (user_id order_id : ℕ) → ℤ → Exec W (Unit {0})
  service_credit user_id order_id amount = repo.credit_accrual user_id order_id amount

  unfoldable pub service_balance : ℕ → Exec W UserBalance
  service_balance user_id w = let (r, w') = repo.select_balance user_id w in (passed_on r, w')

  unfoldable pub service_withdrawals : ℕ → Exec W (List Withdrawal)
  service_withdrawals user_id w =
      let (r, w') = repo.select_withdrawals user_id w in (passed_on r, w')

-- The repository over PostgreSQL.
abbrev pub repo_of : (pg : Pg) → RepoProvider pg.Server
repo_of pg = record {
  withdraw_balance = withdraw_balance pg;
  select_balance = select_balance pg;
  select_withdrawals = select_withdrawals pg;
  credit_accrual = credit_accrual pg;
}
