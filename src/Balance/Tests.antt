-- ===== src/Balance/Tests.antt =====
-- Runs of internal/balance/repo.go on a server that does not fail, and the theorems at those inputs.
use loyalty_system.Prelude.{ℕ, ◌≡◌, refl, [], ◌∷◌, some, Text, arith, text_eq}
use loyalty_system.Prelude.Int.{pos, negsuc, ◌+ℤ◌, ◌-ℤ◌, ◌<ℤ◌}
use loyalty_system.Errors.{
  sentinel, insufficient_funds, withdrawal_already_exists, ok, err, Reply, done,
}
use loyalty_system.Http.{Request}
use loyalty_system.Balance.Service.{repo_of}
use loyalty_system.Balance.Handler.{get_withdrawals_handler}
use loyalty_system.Balance.Listing.{Lists, get_withdrawals_handler-Lists}
use loyalty_system.Pg.{Tables, processed}
use loyalty_system.Pg.Memory.{memory, memory-PgLaws, memory-IsReliable}
use loyalty_system.Balance.{
  WithdrawOpt, withdraw_balance, credit_accrual, update_user_balance, insert_withdrawal,
  insert_balance_accrual, upsert_user_balance,
}
use loyalty_system.Balance.Debit.{debited}
use loyalty_system.Balance.Withdraw.{Withdraws, withdraw_balance-Withdraws}
use loyalty_system.Balance.Credit.{Credits, credit_accrual-Credits}
use loyalty_system.Balance.Success.{withdraw_balance-succeeds}
use loyalty_system.Balance.Ledger.{current_of}
use loyalty_system.Balance.Ledger.Reconciled.{
  IsReconciled, withdraw_balance-IsReconciled, credit_accrual-IsReconciled,
}
use loyalty_system.Balance.Ledger.Points.{
  negative_withdrawal_raises, IsNonnegative, withdraw_balance-IsNonnegative,
}

-- User 7 has uploaded order 21, for which 500 points were credited, and order 22.
abbrev shop : Tables
shop = record {
  users = record { id = 7; login = b'a' ∷ []; password = [] } ∷ [];
  orders =
      record {
        id = 21;
        user_id = 7;
        number = b'0' ∷ [];
        status = processed;
        accrual = some (pos 500);
        uploaded_at = 0;
      }
      ∷ record {
        id = 22;
        user_id = 7;
        number = b'1' ∷ b'8' ∷ [];
        status = processed;
        accrual = some (pos 30);
        uploaded_at = 1;
      }
      ∷ [];
  user_balance = record { user_id = 7; current = pos 500; withdrawn = pos 0 } ∷ [];
  withdrawals = [];
  balance_accruals = record { order_id = 21; user_id = 7; amount = pos 500; credited_at = 0 } ∷ [];
}

abbrev purchase : WithdrawOpt
purchase = record { order = b'1' ∷ b'8' ∷ []; sum = pos 200 }

abbrev refund : WithdrawOpt
refund = record { order = b'2' ∷ b'6' ∷ []; sum = negsuc 99 }

withdraw_ok : (withdraw_balance memory 7 purchase shop).0 ≡ ok tt
unfolding withdraw_balance update_user_balance insert_withdrawal
withdraw_ok = refl

withdraw_short :
    (withdraw_balance memory 7 (record { order = []; sum = pos 501 }) shop).0
    ≡ err (sentinel insufficient_funds)
unfolding withdraw_balance update_user_balance insert_withdrawal
withdraw_short = refl

withdraw_twice :
    (withdraw_balance memory 7 purchase (withdraw_balance memory 7 purchase shop).1).0
    ≡ err (sentinel withdrawal_already_exists)
unfolding withdraw_balance update_user_balance insert_withdrawal text_eq ◌-ℤ◌
withdraw_twice = refl

-- A withdrawal of -100 leaves 600 points.
withdraw_negative : current_of 7 (withdraw_balance memory 7 refund shop).1.user_balance ≡ pos 600
unfolding withdraw_balance update_user_balance insert_withdrawal text_eq ◌-ℤ◌
withdraw_negative = refl

refund_ok : (withdraw_balance memory 7 refund shop).0 ≡ ok tt
unfolding withdraw_balance update_user_balance insert_withdrawal
refund_ok = refl

credit_ok : (credit_accrual memory 7 22 (pos 30) shop).0 ≡ ok tt
unfolding credit_accrual insert_balance_accrual upsert_user_balance
credit_ok = refl

shop-IsReconciled : IsReconciled shop
unfolding ◌+ℤ◌
shop-IsReconciled = record {
  unique = (refl, tt);
  current = λ u. ground arith;
  withdrawn = λ u. ground arith;
}

withdraw_balance-Withdraws_example :
    Withdraws 7 purchase shop
      (withdraw_balance memory 7 purchase shop).0
      (withdraw_balance memory 7 purchase shop).1
withdraw_balance-Withdraws_example = withdraw_balance-Withdraws memory memory-PgLaws 7 purchase shop

credit_accrual-Credits_example :
    Credits 7 22
      (pos 30)
      shop
      (credit_accrual memory 7 22 (pos 30) shop).0
      (credit_accrual memory 7 22 (pos 30) shop).1
credit_accrual-Credits_example = credit_accrual-Credits memory memory-PgLaws 7 22 (pos 30) shop

withdraw_balance-IsReconciled_example : IsReconciled (withdraw_balance memory 7 purchase shop).1
withdraw_balance-IsReconciled_example =
    withdraw_balance-IsReconciled memory memory-PgLaws shop shop-IsReconciled 7 purchase

credit_accrual-IsReconciled_example : IsReconciled (credit_accrual memory 7 22 (pos 30) shop).1
credit_accrual-IsReconciled_example =
    credit_accrual-IsReconciled memory memory-PgLaws shop shop-IsReconciled 7 22 (pos 30)

negative_withdrawal_raises_example :
    pos 500 <ℤ current_of 7 (withdraw_balance memory 7 refund shop).1.user_balance
negative_withdrawal_raises_example =
    negative_withdrawal_raises memory memory-PgLaws 7 refund shop (refl, tt) refund_ok (omega arith)

withdraw_balance-IsNonnegative_example :
    IsNonnegative (withdraw_balance memory 7 purchase shop).1.user_balance
withdraw_balance-IsNonnegative_example =
    withdraw_balance-IsNonnegative memory memory-PgLaws shop (omega arith) 7 purchase

abbrev decode : Reply Text → Reply WithdrawOpt
decode body = done purchase

abbrev request : Request
request = record { context = some 7; authorization = []; body = done [] }

get_withdrawals_handler-Lists_example :
    let bought = (withdraw_balance memory 7 purchase shop).1 in
    let (response, s') = get_withdrawals_handler (repo_of memory) request bought in
    Lists 7 bought response × (s' ≡ bought)
get_withdrawals_handler-Lists_example =
    get_withdrawals_handler-Lists memory memory-PgLaws (withdraw_balance memory 7 purchase shop).1
      request 7 refl

withdraw_balance-succeeds_example :
    let (r, s') = withdraw_balance memory 7 purchase shop in
    (r ≡ ok tt) × (now : ℕ) × (s' ≡ debited 7 purchase now shop)
withdraw_balance-succeeds_example =
    withdraw_balance-succeeds memory memory-IsReliable 7 purchase shop refl refl
