-- ===== src/Balance/Success.antt =====
-- On a server that does not fail, the operations of internal/balance/repo.go do what is asked for.
use loyalty_system.Prelude.{ℕ, ◌≡◌, refl, ap, ◌∙◌, true, false, ◌&&◌, ◌∷◌}
use loyalty_system.Prelude.Int.{ℤ, pos, leb_ℤ}
use loyalty_system.Errors.{Result, ok}
use loyalty_system.Pg.{Pg, Tables, has_user, has_order}
use loyalty_system.Pg.Reliable.{IsReliable}
use loyalty_system.Balance.{
  WithdrawOpt, withdraw_balance, credit_accrual, withdraw_body, credit_body, in_transaction,
  update_user_balance, insert_withdrawal, insert_balance_accrual, upsert_user_balance,
}
use loyalty_system.Balance.Debit.{covered, withdrawn_already, debited, update_some, update-insert}
use loyalty_system.Balance.Credit.{
  credited_already, credited, accrual_row, insert_fresh, upsert_lem,
}

-- The tables between the two statements of a credit.
abbrev accrued : (user_id order_id : ℕ) → ℤ → ℕ → Tables → Tables
accrued user_id order_id amount now t = record t {
  balance_accruals = accrual_row user_id order_id amount now ∷ t.balance_accruals;
}

-- On a server that does not fail, a withdrawal that the user's points cover, for an order that the user
-- has not withdrawn for before, succeeds: the sum is taken from the points and recorded.
pub withdraw_balance-succeeds :
    (pg : Pg) (reliable : IsReliable pg) (user_id : ℕ) (opt : WithdrawOpt) (s : pg.Server)
    → covered user_id opt.sum (pg.tables s) ≡ true
    → withdrawn_already user_id opt.order (pg.tables s) ≡ false
    → let (r, s') = withdraw_balance pg user_id opt s in
      (r ≡ ok tt) × (now : ℕ) × (pg.tables s' ≡ debited user_id opt now (pg.tables s))
unfolding withdraw_balance in_transaction withdraw_body
withdraw_balance-succeeds pg reliable user_id opt s c fresh =
    let (tx, begun, same, kept) = reliable.begins s in
    let t = pg.tables s in
    let (env, updated, work1) = reliable.executes ℕ (update_user_balance user_id opt) tx in
    let tx1 = (pg.exec ℕ (update_user_balance user_id opt) tx).1 in
    let (n, e, some_rows) = update_some user_id opt env t c in
    let (env', inserted, work2) = reliable.executes Unit (insert_withdrawal user_id opt) tx1 in
    let tx2 = (pg.exec Unit (insert_withdrawal user_id opt) tx1).1 in
    let e1 : (update_user_balance user_id opt env (pg.work tx)).0 ≡ ok n =
      ap (λ (x : Tables). (update_user_balance user_id opt env x).0) same ∙ e in
    let w1 : pg.work tx1 ≡ (update_user_balance user_id opt env t).1 =
      work1 ∙ ap (λ (x : Tables). (update_user_balance user_id opt env x).1) same in
    let ins : insert_withdrawal user_id opt env' (pg.work tx1)
        ≡ (ok tt, debited user_id opt env'.now t) =
      ap (insert_withdrawal user_id opt env') w1 ∙ update-insert user_id opt env env' t fresh in
    let (committed, published) = reliable.commits tx2 (pg.begin s).1 in
    rw
      (
        begun,
        updated ∙ e1,
        some_rows,
        inserted ∙ ap (λ (x : Result Unit × Tables). x.0) ins,
        committed,
      )
      (refl, env'.now, published ∙ work2 ∙ ap (λ (x : Result Unit × Tables). x.1) ins)

-- On a server that does not fail, a credit of a positive amount to a user, for an order that has not been
-- credited before, succeeds: the amount is added to the user's points and recorded.
pub credit_accrual-succeeds :
    (pg : Pg) (reliable : IsReliable pg) (user_id order_id : ℕ) (amount : ℤ) (s : pg.Server)
    → leb_ℤ amount (pos 0) ≡ false
    → credited_already order_id (pg.tables s) ≡ false
    → (has_order order_id (pg.tables s) && has_user user_id (pg.tables s)) ≡ true
    → let (r, s') = credit_accrual pg user_id order_id amount s in
      (r ≡ ok tt) × (now : ℕ) × (pg.tables s' ≡ credited user_id order_id amount now (pg.tables s))
unfolding credit_accrual in_transaction credit_body
credit_accrual-succeeds pg reliable user_id order_id amount s due fresh keyed =
    let (tx, begun, same, kept) = reliable.begins s in
    let t = pg.tables s in
    let (env, replied, work1) =
      reliable.executes ℕ (insert_balance_accrual user_id order_id amount) tx in
    let tx1 = (pg.exec ℕ (insert_balance_accrual user_id order_id amount) tx).1 in
    let ins =
      ap (insert_balance_accrual user_id order_id amount env) same
      ∙ insert_fresh user_id order_id amount env t fresh keyed in
    let (env', upserted, work2) = reliable.executes Unit (upsert_user_balance user_id amount) tx1 in
    let tx2 = (pg.exec Unit (upsert_user_balance user_id amount) tx1).1 in
    let ups =
      ap (upsert_user_balance user_id amount env') (work1 ∙ ap (λ (x : Result ℕ × Tables). x.1) ins)
      ∙ upsert_lem user_id order_id amount env' (accrued user_id order_id amount env.now t) in
    let (committed, published) = reliable.commits tx2 (pg.begin s).1 in
    rw
      (
        due,
        begun,
        replied ∙ ap (λ (x : Result ℕ × Tables). x.0) ins,
        upserted ∙ ap (λ (x : Result Unit × Tables). x.0) ups,
        committed,
      )
      (refl, env.now, published ∙ work2 ∙ ap (λ (x : Result Unit × Tables). x.1) ups)
