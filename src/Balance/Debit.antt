-- ===== src/Balance/Debit.antt =====
-- The two statements of `Repo.WithdrawBalance` in internal/balance/repo.go, one after the other.
use loyalty_system.Prelude.{
  ℕ, suc, ◌≡◌, refl, ap, inl, inr, Bool, true, false, List, [], ◌∷◌, Text, any, ◌==◌, ◌&&◌, text_eq,
  arith, Bool-cases,
}
use loyalty_system.Prelude.Int.{ℤ, leb_ℤ, ◌-ℤ◌, ◌+ℤ◌}
use loyalty_system.Errors.{unique_violation, ok, err}
use loyalty_system.Pg.{Env, Tables, update, affected}
use loyalty_system.Balance.{
  WithdrawOpt, is_covered, update_user_balance, withdrawal_row, insert_withdrawal,
}

-- Does the user have a row with at least this sum? Is the withdrawal in the table already?
abbrev pub covered : ℕ → ℤ → Tables → Bool
covered user_id sum t =
    any (λ row. (row.user_id == user_id) && leb_ℤ sum row.current) t.user_balance

abbrev pub withdrawn_already : ℕ → Text → Tables → Bool
withdrawn_already user_id order t =
    any (λ row. (row.user_id == user_id) && text_eq row.order_number order) t.withdrawals

-- The tables after a withdrawal.
abbrev pub debited : ℕ → WithdrawOpt → ℕ → Tables → Tables
debited user_id opt now t = record t {
  user_balance =
      update (λ row. (row.user_id == user_id) && leb_ℤ opt.sum row.current)
        (λ row. record row {
          current = row.current -ℤ opt.sum;
          withdrawn = row.withdrawn +ℤ opt.sum;
        })
        t.user_balance;
  withdrawals =
      record { user_id = user_id; order_number = opt.order; sum = opt.sum; processed_at = now }
      ∷ t.withdrawals;
}

module _ {R : Type 0} (p : R → Bool) where
  affected_none : (rows : List R) → any p rows ≡ false → affected p rows ≡ 0
  affected_none [] h = refl
  affected_none (r ∷ rows) h = ground (arith, affected_none rows)

  affected_some : (rows : List R) → any p rows ≡ true → (n : ℕ) × (affected p rows ≡ suc n)
  affected_some [] h = cc
  affected_some (r ∷ rows) h = elim (Bool-cases (p r)) [
    | inl hit ↦ (affected p rows, rw hit (omega arith))
    | inr miss ↦ let (n, e) = affected_some rows (ground arith) in (n, rw miss (omega (arith, e)))
  ]

module _ (user_id : ℕ) (opt : WithdrawOpt) (env : Env) (t : Tables) where
  pub update_none :
      covered user_id opt.sum t ≡ false → (update_user_balance user_id opt env t).0 ≡ ok 0
  unfolding update_user_balance
  update_none h = ap ok (affected_none _ t.user_balance h)

  pub update_some :
      covered user_id opt.sum t ≡ true
      → (n : ℕ) × ((update_user_balance user_id opt env t).0 ≡ ok n) × ((n == 0) ≡ false)
  unfolding update_user_balance
  update_some h =
      let (n, e) = affected_some _ t.user_balance h in
      (affected (is_covered user_id opt.sum) t.user_balance, refl, rw e (ground arith))

  pub update_withdrawals : (update_user_balance user_id opt env t).1.withdrawals ≡ t.withdrawals
  unfolding update_user_balance
  update_withdrawals = refl

  pub insert_duplicate :
      withdrawn_already user_id opt.order t ≡ true
      → (insert_withdrawal user_id opt env t).0 ≡ err unique_violation
  unfolding insert_withdrawal
  insert_duplicate h = rw h

  insert_fresh :
      withdrawn_already user_id opt.order t ≡ false
      → insert_withdrawal user_id opt env t
        ≡ (ok tt, record t { withdrawals = withdrawal_row user_id opt env.now ∷ t.withdrawals })
  unfolding insert_withdrawal
  insert_fresh h = rw h

pub update-insert :
    (user_id : ℕ) (opt : WithdrawOpt) (env env' : Env) (t : Tables)
    → withdrawn_already user_id opt.order t ≡ false
    → insert_withdrawal user_id opt env' (update_user_balance user_id opt env t).1
      ≡ (ok tt, debited user_id opt env'.now t)
unfolding update_user_balance insert_withdrawal
update-insert user_id opt env env' t h = rw h
