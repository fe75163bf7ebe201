-- ===== src/Balance/Credit.antt =====
-- `Repo.CreditAccrual` of internal/balance/repo.go: what it does to the tables, on every path.
use loyalty_system.Prelude.{
  ℕ, ◌≡◌, refl, ap, ◌∙◌, inl, inr, Bool, true, false, ◌∷◌, any, ◌==◌, ◌&&◌, if◌then◌else◌,
  Bool-cases, subst,
}
use loyalty_system.Prelude.Int.{ℤ, pos, leb_ℤ, ◌+ℤ◌}
use loyalty_system.Errors.{Error, unique_violation, Result, ok, err}
use loyalty_system.Pg.{
  Pg, PgLaws, Env, Tables, AccrualRow, update, has_user, has_order, foreign_key_violation,
}
use loyalty_system.Balance.{
  Ending, commits, returns, insert_balance_accrual, upsert_row, upsert_user_balance, in_transaction,
  credit_body, credit_accrual, credit_if,
}
use loyalty_system.Balance.Effects.{IsInternal, AfterBody, in_transaction-cases}

-- Has the order been credited already?
abbrev pub credited_already : ℕ → Tables → Bool
credited_already order_id t = any (λ row. row.order_id == order_id) t.balance_accruals

abbrev pub accrual_row : (user_id order_id : ℕ) → ℤ → ℕ → AccrualRow
accrual_row user_id order_id amount now = record {
  order_id = order_id;
  user_id = user_id;
  amount = amount;
  credited_at = now;
}

-- The tables after a credit.
abbrev pub credited : (user_id order_id : ℕ) → ℤ → ℕ → Tables → Tables
credited user_id order_id amount now t = record t {
  user_balance =
      if any (λ row. row.user_id == user_id) t.user_balance
      then update (λ row. row.user_id == user_id)
          (λ row. record row { current = row.current +ℤ amount }) t.user_balance
      else record { user_id = user_id; current = amount; withdrawn = pos 0 } ∷ t.user_balance;
  balance_accruals = accrual_row user_id order_id amount now ∷ t.balance_accruals;
}

-- How a credit ends, and what it leaves in the tables.
pub data Credits (user_id order_id : ℕ) (amount : ℤ) (t : Tables) (r : Result (Unit {0}))
    (t' : Tables) : Type 0 where
  nothing_due :
      leb_ℤ amount (pos 0) ≡ true → r ≡ ok tt → t' ≡ t → Credits user_id order_id amount t r t'
  booked :
      leb_ℤ amount (pos 0) ≡ false
      → credited_already order_id t ≡ false
      → (now : ℕ) → r ≡ ok tt
      → t' ≡ credited user_id order_id amount now t
      → Credits user_id order_id amount t r t'
  already_credited :
      leb_ℤ amount (pos 0) ≡ false
      → credited_already order_id t ≡ true
      → r ≡ ok tt
      → t' ≡ t
      → Credits user_id order_id amount t r t'
  failed :
      leb_ℤ amount (pos 0) ≡ false
      → (e : Error) → r ≡ err e
      → IsInternal e
      → t' ≡ t
      → Credits user_id order_id amount t r t'
  unconfirmed :
      leb_ℤ amount (pos 0) ≡ false
      → credited_already order_id t ≡ false
      → (now : ℕ) (e : Error) → r ≡ err e
      → IsInternal e
      → t' ≡ credited user_id order_id amount now t
      → Credits user_id order_id amount t r t'

data BodyOf (user_id order_id : ℕ) (amount : ℤ) (t : Tables) (r : Result Ending) (worked : Tables)
    : Type 0 where
  done :
      credited_already order_id t ≡ false
      → (now : ℕ) → r ≡ ok commits
      → worked ≡ credited user_id order_id amount now t
      → BodyOf user_id order_id amount t r worked
  early :
      credited_already order_id t ≡ true
      → r ≡ ok returns
      → BodyOf user_id order_id amount t r worked
  broken : (e : Error) → r ≡ err e → IsInternal e → BodyOf user_id order_id amount t r worked

module _ (user_id order_id : ℕ) (amount : ℤ) (env : Env) (t : Tables) where
  pub insert_duplicate :
      credited_already order_id t ≡ true
      → (insert_balance_accrual user_id order_id amount env t).0 ≡ err unique_violation
  unfolding insert_balance_accrual
  insert_duplicate h = rw h

  insert_stray :
      credited_already order_id t ≡ false
      → (has_order order_id t && has_user user_id t) ≡ false
      → insert_balance_accrual user_id order_id amount env t ≡ (err foreign_key_violation, t)
  unfolding insert_balance_accrual
  insert_stray h k = rw (h, k)

  pub insert_fresh :
      credited_already order_id t ≡ false
      → (has_order order_id t && has_user user_id t) ≡ true
      → insert_balance_accrual user_id order_id amount env t ≡ (
        ok 1,
        record t {
          balance_accruals = accrual_row user_id order_id amount env.now ∷ t.balance_accruals;
        },
      )
  unfolding insert_balance_accrual
  insert_fresh h k = rw (h, k)

  pub upsert_lem :
      upsert_user_balance user_id amount env t
      ≡ (ok tt, record t { user_balance = upsert_row user_id amount t.user_balance })
  unfolding upsert_user_balance
  upsert_lem = refl

module _ (pg : Pg) (laws : PgLaws pg) (user_id order_id : ℕ) (amount : ℤ) where
  upsert_cases :
      (t : Tables) (tx : pg.Tx) (now : ℕ)
      → credited_already order_id t ≡ false
      → pg.work tx ≡ record t {
        balance_accruals = accrual_row user_id order_id amount now ∷ t.balance_accruals;
      }
      → let (r, tx') = credit_if pg commits user_id amount tx in
        BodyOf user_id order_id amount t r (pg.work tx')
  upsert_cases t tx now fresh w =
      let (env, outcome) = laws.exec_executes Unit (upsert_user_balance user_id amount) tx in
      elim outcome [
        | inr (n, reply, same) ↦ rw reply (broken _ refl ("failed to upsert user balance", n, refl))
        | inl (reply, worked) ↦
            let e = upsert_lem user_id order_id amount env (pg.work tx) in
            rw (reply ∙ ap (λ (x : Result Unit × Tables). x.0) e) (
              done fresh now refl (
                worked
                ∙ ap (λ (x : Result Unit × Tables). x.1) e
                ∙ ap
                    (λ (x : Tables). record x {
                      user_balance = upsert_row user_id amount x.user_balance;
                    })
                    w))
      ]

  credit_body-cases :
      (tx : pg.Tx)
      → let (r, tx') = credit_body pg user_id order_id amount tx in
        BodyOf user_id order_id amount (pg.work tx) r (pg.work tx')
  unfolding credit_body
  credit_body-cases tx =
      let (env, outcome) =
        laws.exec_executes ℕ (insert_balance_accrual user_id order_id amount) tx in
      elim outcome [
        | inr (n, reply, same) ↦
            rw reply (broken _ refl ("failed to insert balance accrual", n, refl))
        | inl (reply, worked) ↦ elim (Bool-cases (credited_already order_id (pg.work tx))) [
          | inl dup ↦
              rw (reply ∙ insert_duplicate user_id order_id amount env (pg.work tx) dup)
                (early dup refl)
          | inr fresh ↦
              elim (Bool-cases (has_order order_id (pg.work tx) && has_user user_id (pg.work tx))) [
                | inl keyed ↦
                    let e = insert_fresh user_id order_id amount env (pg.work tx) fresh keyed in
                    rw (reply ∙ ap (λ (x : Result ℕ × Tables). x.0) e) (
                      upsert_cases (pg.work tx) _ env.now fresh
                        (worked ∙ ap (λ (x : Result ℕ × Tables). x.1) e))
                | inr stray ↦
                    let e = insert_stray user_id order_id amount env (pg.work tx) fresh stray in
                    rw (reply ∙ ap (λ (x : Result ℕ × Tables). x.0) e)
                      (broken _ refl ("failed to insert balance accrual", 23503, refl))
              ]
        ]
      ]

close_body :
    (user_id order_id : ℕ) (amount : ℤ) (t worked t' : Tables) (b : Result Ending)
    (r : Result (Unit {0}))
    → leb_ℤ amount (pos 0) ≡ false
    → BodyOf user_id order_id amount t b worked
    → AfterBody b worked t r t'
    → Credits user_id order_id amount t r t'
close_body user_id order_id amount t worked t' b r due (done f now e w) a =
    elim (subst (λ x. AfterBody x worked t r t') e a) [
      | inl (reply, kept) ↦ booked due f now reply (kept ∙ w)
      | inr (x, reply, internal, inl kept) ↦ unconfirmed due f now x reply internal (kept ∙ w)
      | inr (x, reply, internal, inr undone) ↦ failed due x reply internal undone
    ]
close_body user_id order_id amount t worked t' b r due (early d e) a =
    let (reply, undone) = subst (λ x. AfterBody x worked t r t') e a in
    already_credited due d reply undone
close_body user_id order_id amount t worked t' b r due (broken x e internal) a =
    let (reply, undone) = subst (λ y. AfterBody y worked t r t') e a in
    failed due x reply internal undone

module _ (pg : Pg) (laws : PgLaws pg) (user_id order_id : ℕ) (amount : ℤ) (s : pg.Server) where
  credit_due :
      leb_ℤ amount (pos 0) ≡ false
      → let (r, s') = in_transaction pg (credit_body pg user_id order_id amount) s in
        Credits user_id order_id amount (pg.tables s) r (pg.tables s')
  credit_due due = elim (in_transaction-cases pg laws (credit_body pg user_id order_id amount) s) [
    | inl (e, reply, internal, undone) ↦ failed due e reply internal undone
    | inr (tx, same, after) ↦
        close_body user_id order_id amount (pg.tables s) _ _ _ _ due
          (subst
            (λ t.
              BodyOf user_id order_id amount t (credit_body pg user_id order_id amount tx).0
                (pg.work (credit_body pg user_id order_id amount tx).1))
            same (credit_body-cases pg laws user_id order_id amount tx))
          after
  ]

  -- A credit ends in one of five ways. An amount of zero or less changes nothing and succeeds. For an
  -- amount above zero, an order that has been credited before succeeds with no change, or the call
  -- fails inside the server with no change. If the order has not been credited before, the credit is
  -- recorded and added to the user's points, and succeeds, or it fails inside the server with no
  -- change, or its commit reports a failure though it was carried out.
  pub credit_accrual-Credits :
      let (r, s') = credit_accrual pg user_id order_id amount s in
      Credits user_id order_id amount (pg.tables s) r (pg.tables s')
  unfolding credit_accrual
  credit_accrual-Credits = elim (Bool-cases (leb_ℤ amount (pos 0))) [
    | inl none_due ↦ rw none_due (nothing_due none_due refl refl)
    | inr due ↦ rw due (credit_due due)
  ]
