-- ===== src/Balance/Ledger/Points.antt =====
-- What a user of internal/balance/repo.go sees of the points: a withdrawal, a repeated credit, the
-- sign of the points, and the balance that is read back.
use loyalty_system.Prelude.{
  ℕ, ◌≡◌, true, false, List, [], ◌∷◌, any, ◌==◌, if◌then◌else◌, arith, Bool-cases, inl, inr,
  ==_refl,
}
use loyalty_system.Prelude.Int.{ℤ, pos, ◌+ℤ◌, ◌-ℤ◌, ◌≤ℤ◌, ◌<ℤ◌, leb_ℤ, int_laws}
use loyalty_system.Errors.{Result, ok}
use loyalty_system.Pg.{Pg, PgLaws, Tables, BalanceRow, update}
use loyalty_system.Balance.{
  WithdrawOpt, is_covered, debit, credit, upsert_row, withdraw_balance, credit_accrual,
}
use loyalty_system.Balance.Withdraw.{
  Withdraws, withdrawn, short_of_funds, already_withdrawn, failed, unconfirmed,
  withdraw_balance-Withdraws,
}
use loyalty_system.Balance.Credit
use loyalty_system.Balance.Credit.{Credits, credited, credit_accrual-Credits, credited_already}
use loyalty_system.Balance.Ledger.{
  current_of, withdrawn_of, HasUniqueUsers, current_of-debit, withdrawn_of-debit,
}

-- A successful withdrawal takes the sum from the user's points and adds it to the user's withdrawn
-- total, and changes neither of any other user.
pub withdraw_moves_points :
    (pg : Pg) (laws : PgLaws pg) (u : ℕ) (opt : WithdrawOpt) (s : pg.Server)
    → HasUniqueUsers (pg.tables s).user_balance
    → (withdraw_balance pg u opt s).0 ≡ ok tt
    → let before = (pg.tables s).user_balance in
      let after = (pg.tables (withdraw_balance pg u opt s).1).user_balance in
      (v : ℕ)
      → (current_of v after
          ≡ (if u == v then current_of v before -ℤ opt.sum else current_of v before))
        × (withdrawn_of v after
            ≡ (if u == v then withdrawn_of v before +ℤ opt.sum else withdrawn_of v before))
withdraw_moves_points pg laws u opt s h success v = go (withdraw_balance-Withdraws pg laws u opt s)
  where
    t : Tables
    t = pg.tables s

    t' : Tables
    t' = pg.tables (withdraw_balance pg u opt s).1

    go :
        Withdraws u opt t (withdraw_balance pg u opt s).0 t'
        → (current_of v t'.user_balance ≡ (
            if u == v then current_of v t.user_balance -ℤ opt.sum else current_of v t.user_balance))
          × (withdrawn_of v t'.user_balance ≡ (
              if u == v
              then withdrawn_of v t.user_balance +ℤ opt.sum
              else withdrawn_of v t.user_balance))
    go (withdrawn c f now e w) = rw w (
      current_of-debit u opt.sum v t.user_balance h c,
      withdrawn_of-debit u opt.sum v t.user_balance h c,
    )
    go (short_of_funds c e w) = cc
    go (already_withdrawn c d e w) = cc
    go (failed x e i w) = cc
    go (unconfirmed c f now x e i w) = cc

-- A withdrawal of a negative sum that succeeds raises the user's points.
pub negative_withdrawal_raises :
    (pg : Pg) (laws : PgLaws pg) (u : ℕ) (opt : WithdrawOpt) (s : pg.Server)
    → HasUniqueUsers (pg.tables s).user_balance
    → (withdraw_balance pg u opt s).0 ≡ ok tt
    → opt.sum <ℤ pos 0
    → current_of u (pg.tables s).user_balance
      <ℤ current_of u (pg.tables (withdraw_balance pg u opt s).1).user_balance
negative_withdrawal_raises pg laws u opt s h success negative =
    rw ((withdraw_moves_points pg laws u opt s h success u).0, ==_refl u) (omega int_laws)

-- Nobody's points are below zero.
abbrev pub IsNonnegative : List BalanceRow → Type 0
IsNonnegative [] = Unit
IsNonnegative (row ∷ rows) = (pos 0 ≤ℤ row.current) × IsNonnegative rows

debit-IsNonnegative :
    (u : ℕ) (sum : ℤ) (rows : List BalanceRow)
    → IsNonnegative rows
    → IsNonnegative (update (is_covered u sum) (debit sum) rows)
debit-IsNonnegative u sum [] h = tt
debit-IsNonnegative u sum (row ∷ rows) h = grind (int_laws, debit-IsNonnegative u sum rows h.1)

credit-IsNonnegative :
    (u : ℕ) (amount : ℤ) (rows : List BalanceRow)
    → pos 0 ≤ℤ amount
    → IsNonnegative rows
    → IsNonnegative (update (λ row. row.user_id == u) (credit amount) rows)
credit-IsNonnegative u amount [] p h = tt
credit-IsNonnegative u amount (row ∷ rows) p h =
    grind (int_laws, credit-IsNonnegative u amount rows p h.1)

upsert-IsNonnegative :
    (u : ℕ) (amount : ℤ) (rows : List BalanceRow)
    → pos 0 ≤ℤ amount
    → IsNonnegative rows
    → IsNonnegative (upsert_row u amount rows)
upsert-IsNonnegative u amount rows p h = elim (Bool-cases (any (λ row. row.user_id == u) rows)) [
  | inl known ↦ rw known (credit-IsNonnegative u amount rows p h)
  | inr unknown ↦ rw unknown (p, h)
]

module _ (pg : Pg) (laws : PgLaws pg) (s : pg.Server)
    (h : IsNonnegative (pg.tables s).user_balance) where
  -- If nobody's points are below zero before a withdrawal, nobody's are after it, whatever the sum
  -- and however it ends.
  pub withdraw_balance-IsNonnegative :
      (u : ℕ) (opt : WithdrawOpt)
      → IsNonnegative (pg.tables (withdraw_balance pg u opt s).1).user_balance
  withdraw_balance-IsNonnegative u opt = go (withdraw_balance-Withdraws pg laws u opt s)
    where
      go :
          {r : Result (Unit {0})} {t' : Tables}
          → Withdraws u opt (pg.tables s) r t'
          → IsNonnegative t'.user_balance
      go (withdrawn c f now e w) = rw w (debit-IsNonnegative u opt.sum _ h)
      go (short_of_funds c e w) = rw w h
      go (already_withdrawn c d e w) = rw w h
      go (failed x e i w) = rw w h
      go (unconfirmed c f now x e i w) = rw w (debit-IsNonnegative u opt.sum _ h)

  -- The same for a credit, whatever the amount.
  pub credit_accrual-IsNonnegative :
      (u order_id : ℕ) (amount : ℤ)
      → IsNonnegative (pg.tables (credit_accrual pg u order_id amount s).1).user_balance
  credit_accrual-IsNonnegative u order_id amount =
      go (credit_accrual-Credits pg laws u order_id amount s)
    where
      go :
          {r : Result (Unit {0})} {t' : Tables}
          → Credits u order_id amount (pg.tables s) r t'
          → IsNonnegative t'.user_balance
      go (Credit.nothing_due d e w) = rw w h
      go (Credit.booked d f now e w) = rw w (upsert-IsNonnegative u amount _ (ground arith) h)
      go (Credit.already_credited a d e w) = rw w h
      go (Credit.failed a x e i w) = rw w h
      go (Credit.unconfirmed d f now x e i w) =
          rw w (upsert-IsNonnegative u amount _ (ground arith) h)

pub Credits-credited_already :
    {u o : ℕ} {amount : ℤ} {t t' : Tables} {r : Result (Unit {0})}
    → Credits u o amount t r t'
    → leb_ℤ amount (pos 0) ≡ false
    → r ≡ ok tt
    → credited_already o t' ≡ true
Credits-credited_already (Credit.nothing_due d e w) due success = cc
Credits-credited_already {o} (Credit.booked d f now e w) due success = rw w (rw ==_refl)
Credits-credited_already (Credit.already_credited a d e w) due success = rw w d
Credits-credited_already (Credit.failed a x e i w) due success = cc
Credits-credited_already (Credit.unconfirmed d f now x e i w) due success = cc

Credits-unchanged :
    {u o : ℕ} {amount : ℤ} {t t' : Tables} {r : Result (Unit {0})}
    → Credits u o amount t r t'
    → credited_already o t ≡ true
    → t' ≡ t
Credits-unchanged (Credit.nothing_due d e w) old = w
Credits-unchanged (Credit.booked d f now e w) old = cc
Credits-unchanged (Credit.already_credited a d e w) old = w
Credits-unchanged (Credit.failed a x e i w) old = w
Credits-unchanged (Credit.unconfirmed d f now x e i w) old = cc

-- Crediting is idempotent: once a credit of a positive amount for an order has succeeded, no later
-- credit for that order changes the tables, for whatever user and amount.
pub credit_accrual_idempotent :
    (pg : Pg) (laws : PgLaws pg) (u v order_id : ℕ) (amount again : ℤ) (s : pg.Server)
    → pos 0 <ℤ amount
    → (credit_accrual pg u order_id amount s).0 ≡ ok tt
    → let s' = (credit_accrual pg u order_id amount s).1 in
      pg.tables (credit_accrual pg v order_id again s').1 ≡ pg.tables s'
credit_accrual_idempotent pg laws u v order_id amount again s positive success =
    Credits-unchanged (credit_accrual-Credits pg laws v order_id again _) (
      Credits-credited_already (credit_accrual-Credits pg laws u order_id amount s) (ground arith)
        success)
