-- ===== src/Balance/Withdraw.antt =====
-- `Repo.WithdrawBalance` of internal/balance/repo.go: what it does to the tables, on every path.
use loyalty_system.Prelude.{ℕ, ◌≡◌, refl, ap, ◌∙◌, inl, inr, true, false, Bool-cases, subst}
use loyalty_system.Errors.{
  Error, sentinel, insufficient_funds, withdrawal_already_exists, Result, ok, err,
}
use loyalty_system.Pg.{Pg, PgLaws, Env, Tables}
use loyalty_system.Balance.{
  WithdrawOpt, Ending, commits, update_user_balance, insert_withdrawal, withdraw_body,
  withdraw_balance, replied, withdrawal_reply,
}
use loyalty_system.Balance.Effects.{IsInternal, AfterBody, in_transaction-cases}
use loyalty_system.Balance.Debit.{
  covered, withdrawn_already, debited, update_some, update-insert, update_none, update_withdrawals,
  insert_duplicate,
}

data BodyOf (user_id : ℕ) (opt : WithdrawOpt) (t : Tables) (r : Result Ending) (worked : Tables)
    : Type 0 where
  booked :
      covered user_id opt.sum t ≡ true
      → withdrawn_already user_id opt.order t ≡ false
      → (now : ℕ) → r ≡ ok commits
      → worked ≡ debited user_id opt now t
      → BodyOf user_id opt t r worked
  short :
      covered user_id opt.sum t ≡ false
      → r ≡ err (sentinel insufficient_funds)
      → BodyOf user_id opt t r worked
  repeated :
      covered user_id opt.sum t ≡ true
      → withdrawn_already user_id opt.order t ≡ true
      → r ≡ err (sentinel withdrawal_already_exists)
      → BodyOf user_id opt t r worked
  broken : (e : Error) → r ≡ err e → IsInternal e → BodyOf user_id opt t r worked

module _ (pg : Pg) (laws : PgLaws pg) where
  insert_cases :
      (user_id : ℕ) (opt : WithdrawOpt) (t : Tables) (tx : pg.Tx) (env : Env)
      → covered user_id opt.sum t ≡ true
      → pg.work tx ≡ (update_user_balance user_id opt env t).1
      → let (r, tx') = replied withdrawal_reply (pg.exec Unit (insert_withdrawal user_id opt)) tx in
        BodyOf user_id opt t r (pg.work tx')
  insert_cases user_id opt t tx env c w =
      let (env', outcome) = laws.exec_executes Unit (insert_withdrawal user_id opt) tx in
      let ws : (pg.work tx).withdrawals ≡ t.withdrawals =
        ap (λ (x : Tables). x.withdrawals) w ∙ update_withdrawals user_id opt env t in
      elim outcome [
        | inr (n, reply, same) ↦ rw reply (broken _ refl ("failed to insert withdrawal", n, refl))
        | inl (reply, done) ↦ elim (Bool-cases (withdrawn_already user_id opt.order t)) [
          | inl dup ↦
              rw (reply ∙ insert_duplicate user_id opt env' (pg.work tx) (rw ws dup))
                (repeated c dup refl)
          | inr fresh ↦
              let e : insert_withdrawal user_id opt env' (pg.work tx)
                  ≡ (ok tt, debited user_id opt env'.now t) =
                rw w (update-insert user_id opt env env' t fresh) in
              booked c fresh env'.now (rw (reply ∙ ap (λ (x : Result Unit × Tables). x.0) e))
                (done ∙ ap (λ (x : Result Unit × Tables). x.1) e)
        ]
      ]

  withdraw_body-cases :
      (user_id : ℕ) (opt : WithdrawOpt) (tx : pg.Tx)
      → let (r, tx') = withdraw_body pg user_id opt tx in
        BodyOf user_id opt (pg.work tx) r (pg.work tx')
  unfolding withdraw_body
  withdraw_body-cases user_id opt tx =
      let (env, outcome) = laws.exec_executes ℕ (update_user_balance user_id opt) tx in
      elim outcome [
        | inr (n, reply, same) ↦ rw reply (broken _ refl ("failed to update user balance", n, refl))
        | inl (reply, done) ↦ elim (Bool-cases (covered user_id opt.sum (pg.work tx))) [
          | inl c ↦
              let (n, e, some_rows) = update_some user_id opt env (pg.work tx) c in
              rw (reply ∙ e, some_rows)
                (insert_cases user_id opt (pg.work tx)
                  (pg.exec ℕ (update_user_balance user_id opt) tx).1 env c done)
          | inr u ↦ rw (reply ∙ update_none user_id opt env (pg.work tx) u) (short u refl)
        ]
      ]

-- How a withdrawal ends, and what it leaves in the tables.
pub data Withdraws (user_id : ℕ) (opt : WithdrawOpt) (t : Tables) (r : Result (Unit {0}))
    (t' : Tables) : Type 0 where
  withdrawn :
      covered user_id opt.sum t ≡ true
      → withdrawn_already user_id opt.order t ≡ false
      → (now : ℕ) → r ≡ ok tt
      → t' ≡ debited user_id opt now t
      → Withdraws user_id opt t r t'
  short_of_funds :
      covered user_id opt.sum t ≡ false
      → r ≡ err (sentinel insufficient_funds)
      → t' ≡ t
      → Withdraws user_id opt t r t'
  already_withdrawn :
      covered user_id opt.sum t ≡ true
      → withdrawn_already user_id opt.order t ≡ true
      → r ≡ err (sentinel withdrawal_already_exists)
      → t' ≡ t
      → Withdraws user_id opt t r t'
  failed : (e : Error) → r ≡ err e → IsInternal e → t' ≡ t → Withdraws user_id opt t r t'
  unconfirmed :
      covered user_id opt.sum t ≡ true
      → withdrawn_already user_id opt.order t ≡ false
      → (now : ℕ) (e : Error) → r ≡ err e
      → IsInternal e
      → t' ≡ debited user_id opt now t
      → Withdraws user_id opt t r t'

close_body :
    (user_id : ℕ) (opt : WithdrawOpt) (t worked t' : Tables) (b : Result Ending)
    (r : Result (Unit {0}))
    → BodyOf user_id opt t b worked
    → AfterBody b worked t r t'
    → Withdraws user_id opt t r t'
close_body user_id opt t worked t' b r (booked c f now e w) a =
    elim (subst (λ x. AfterBody x worked t r t') e a) [
      | inl (reply, done) ↦ withdrawn c f now reply (done ∙ w)
      | inr (x, reply, internal, inl done) ↦ unconfirmed c f now x reply internal (done ∙ w)
      | inr (x, reply, internal, inr undone) ↦ failed x reply internal undone
    ]
close_body user_id opt t worked t' b r (short c e) a =
    let (reply, undone) = subst (λ x. AfterBody x worked t r t') e a in
    short_of_funds c reply undone
close_body user_id opt t worked t' b r (repeated c d e) a =
    let (reply, undone) = subst (λ x. AfterBody x worked t r t') e a in
    already_withdrawn c d reply undone
close_body user_id opt t worked t' b r (broken x e internal) a =
    let (reply, undone) = subst (λ y. AfterBody y worked t r t') e a in
    failed x reply internal undone

module _ (pg : Pg) (laws : PgLaws pg) (user_id : ℕ) (opt : WithdrawOpt) (s : pg.Server) where
  -- A withdrawal ends in one of five ways. It succeeds, which takes the sum from the user's row and
  -- records it, and needs a row that covers the sum and no earlier withdrawal for the order. Or it
  -- is refused for want of funds, or as a repetition, or fails inside the server, and then nothing
  -- has changed. Or its commit reports a failure though it was carried out in full.
  pub withdraw_balance-Withdraws :
      let (r, s') = withdraw_balance pg user_id opt s in
      Withdraws user_id opt (pg.tables s) r (pg.tables s')
  unfolding withdraw_balance
  withdraw_balance-Withdraws =
      elim (in_transaction-cases pg laws (withdraw_body pg user_id opt) s) [
        | inl (e, reply, internal, undone) ↦ failed e reply internal undone
        | inr (tx, same, after) ↦
            close_body user_id opt (pg.tables s) _ _ _ _
              (subst
                (λ t.
                  BodyOf user_id opt t (withdraw_body pg user_id opt tx).0
                    (pg.work (withdraw_body pg user_id opt tx).1))
                same (withdraw_body-cases pg laws user_id opt tx))
              after
      ]
