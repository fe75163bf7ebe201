-- ===== src/Balance/Ledger/Reconciled.antt =====
-- The books of internal/balance/repo.go: each user's points are what was credited less what was
-- withdrawn, and no transaction breaks that.
use loyalty_system.Prelude.{ℕ, ◌≡◌, true, ◌==◌, Bool-cases, inl, inr, subst, sym, ap, ◌∙◌}
use loyalty_system.Prelude.Int.{ℤ, pos, ◌+ℤ◌, ◌-ℤ◌, int_laws}
use loyalty_system.Errors.{Result}
use loyalty_system.Pg.{Pg, PgLaws, Tables}
use loyalty_system.Balance.{WithdrawOpt, withdraw_balance, credit_accrual}
use loyalty_system.Balance.Debit.{covered, debited}
use loyalty_system.Balance.Withdraw.{
  Withdraws, withdrawn, short_of_funds, already_withdrawn, failed, unconfirmed,
  withdraw_balance-Withdraws,
}
use loyalty_system.Balance.Credit
use loyalty_system.Balance.Credit.{Credits, credited, credit_accrual-Credits}
use loyalty_system.Balance.Ledger.{
  current_of, withdrawn_of, earned, spent, HasUniqueUsers, debit-HasUniqueUsers, current_of-debit,
  withdrawn_of-debit,
}
use loyalty_system.Balance.Ledger.Upsert.{
  upsert-HasUniqueUsers, current_of-upsert, withdrawn_of-upsert,
}

pub record IsReconciled (t : Tables) : Type 0 where
  pub unique : HasUniqueUsers t.user_balance
  pub current :
      (u : ℕ) → current_of u t.user_balance +ℤ spent u t.withdrawals ≡ earned u t.balance_accruals
  pub withdrawn : (u : ℕ) → withdrawn_of u t.user_balance ≡ spent u t.withdrawals

zero_add : (a : ℤ) → pos 0 +ℤ a ≡ a
zero_add a = omega int_laws

-- What leaves the points joins the withdrawals.
moved : (points sum taken : ℤ) → (points -ℤ sum) +ℤ (sum +ℤ taken) ≡ points +ℤ taken
moved points sum taken = omega int_laws

gained : (points sum taken : ℤ) → (points +ℤ sum) +ℤ taken ≡ sum +ℤ (points +ℤ taken)
gained points sum taken = omega int_laws

debited-IsReconciled :
    (u : ℕ) (opt : WithdrawOpt) (now : ℕ) (t : Tables)
    → covered u opt.sum t ≡ true
    → IsReconciled t
    → IsReconciled (debited u opt now t)
debited-IsReconciled u opt now t c h = record {
  unique = debit-HasUniqueUsers u opt.sum t.user_balance h.unique;
  current = λ v.
      rw (current_of-debit u opt.sum v t.user_balance h.unique c) (elim (Bool-cases (u == v)) [
        | inl same ↦ rw same (moved _ opt.sum _ ∙ h.current v)
        | inr other ↦ rw (other, zero_add) (h.current v)
      ]);
  withdrawn = λ v.
      rw (withdrawn_of-debit u opt.sum v t.user_balance h.unique c) (elim (Bool-cases (u == v)) [
        | inl same ↦ rw (same, h.withdrawn v) (omega int_laws)
        | inr other ↦ rw (other, zero_add) (h.withdrawn v)
      ]);
}

credited-IsReconciled :
    (u order_id : ℕ) (amount : ℤ) (now : ℕ) (t : Tables)
    → IsReconciled t
    → IsReconciled (credited u order_id amount now t)
credited-IsReconciled u order_id amount now t h = record {
  unique = upsert-HasUniqueUsers u amount t.user_balance h.unique;
  current = λ v. rw (current_of-upsert u amount v t.user_balance) (elim (Bool-cases (u == v)) [
    | inl same ↦ rw same (gained _ amount _ ∙ ap (λ e. amount +ℤ e) (h.current v))
    | inr other ↦ rw (other, zero_add) (h.current v)
  ]);
  withdrawn = λ v. rw (withdrawn_of-upsert u amount v t.user_balance) (h.withdrawn v);
}

Withdraws-IsReconciled :
    {u : ℕ} {opt : WithdrawOpt} {t t' : Tables} {r : Result (Unit {0})}
    → Withdraws u opt t r t'
    → IsReconciled t
    → IsReconciled t'
Withdraws-IsReconciled (withdrawn c f now e w) h =
    subst IsReconciled (sym w) (debited-IsReconciled _ _ now _ c h)
Withdraws-IsReconciled (short_of_funds c e w) h = subst IsReconciled (sym w) h
Withdraws-IsReconciled (already_withdrawn c d e w) h = subst IsReconciled (sym w) h
Withdraws-IsReconciled (failed x e i w) h = subst IsReconciled (sym w) h
Withdraws-IsReconciled (unconfirmed c f now x e i w) h =
    subst IsReconciled (sym w) (debited-IsReconciled _ _ now _ c h)

Credits-IsReconciled :
    {u o : ℕ} {amount : ℤ} {t t' : Tables} {r : Result (Unit {0})}
    → Credits u o amount t r t'
    → IsReconciled t
    → IsReconciled t'
Credits-IsReconciled (Credit.nothing_due d e w) h = subst IsReconciled (sym w) h
Credits-IsReconciled (Credit.booked d f now e w) h =
    subst IsReconciled (sym w) (credited-IsReconciled _ _ _ now _ h)
Credits-IsReconciled (Credit.already_credited a d e w) h = subst IsReconciled (sym w) h
Credits-IsReconciled (Credit.failed a x e i w) h = subst IsReconciled (sym w) h
Credits-IsReconciled (Credit.unconfirmed d f now x e i w) h =
    subst IsReconciled (sym w) (credited-IsReconciled _ _ _ now _ h)

module _ (pg : Pg) (laws : PgLaws pg) (s : pg.Server) (h : IsReconciled (pg.tables s)) where
  -- From reconciled tables, a withdrawal leaves reconciled tables, however it ends: every user's
  -- points are the credits less the withdrawals, and the withdrawn total is the withdrawals.
  pub withdraw_balance-IsReconciled :
      (user_id : ℕ) (opt : WithdrawOpt)
      → IsReconciled (pg.tables (withdraw_balance pg user_id opt s).1)
  withdraw_balance-IsReconciled user_id opt =
      Withdraws-IsReconciled (withdraw_balance-Withdraws pg laws user_id opt s) h

  -- From reconciled tables, a credit leaves reconciled tables, however it ends.
  pub credit_accrual-IsReconciled :
      (user_id order_id : ℕ) (amount : ℤ)
      → IsReconciled (pg.tables (credit_accrual pg user_id order_id amount s).1)
  credit_accrual-IsReconciled user_id order_id amount =
      Credits-IsReconciled (credit_accrual-Credits pg laws user_id order_id amount s) h
