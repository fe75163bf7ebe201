-- ===== src/Balance/Ledger/Upsert.antt =====
-- The upsert of `CreditAccrual`, seen through the points of one user.
use loyalty_system.Prelude.{
  ℕ, ◌≡◌, refl, true, false, List, [], ◌∷◌, any, ◌==◌, if◌then◌else◌, arith, Bool-cases, inl, inr,
  subst, ==_iff, ==_refl, sym,
}
use loyalty_system.Prelude.Int.{ℤ, pos, ◌+ℤ◌, int_laws}
use loyalty_system.Pg.{BalanceRow, update}
use loyalty_system.Balance.{credit, upsert_row}
use loyalty_system.Balance.Ledger.{current_of, withdrawn_of, HasUniqueUsers}

module _ (u : ℕ) (amount : ℤ) where
  abbrev credit_rows : List BalanceRow → List BalanceRow
  credit_rows = update (λ row. row.user_id == u) (credit amount)

  any-credit :
      (v : ℕ) (rows : List BalanceRow)
      → any (λ r. r.user_id == v) (credit_rows rows) ≡ any (λ r. r.user_id == v) rows
  any-credit v [] = refl
  any-credit v (row ∷ rows) = ground (arith, any-credit v rows)

  credit-HasUniqueUsers :
      (rows : List BalanceRow) → HasUniqueUsers rows → HasUniqueUsers (credit_rows rows)
  credit-HasUniqueUsers [] h = tt
  credit-HasUniqueUsers (row ∷ rows) h =
      ground (arith, any-credit row.user_id rows, credit-HasUniqueUsers rows h.1)

  -- The primary key holds after an upsert.
  pub upsert-HasUniqueUsers :
      (rows : List BalanceRow) → HasUniqueUsers rows → HasUniqueUsers (upsert_row u amount rows)
  upsert-HasUniqueUsers rows h = elim (Bool-cases (any (λ row. row.user_id == u) rows)) [
    | inl known ↦ rw known (credit-HasUniqueUsers rows h)
    | inr unknown ↦ rw unknown (unknown, h)
  ]

  current_of-credit_ne :
      (v : ℕ) (rows : List BalanceRow)
      → (u == v) ≡ false
      → current_of v (credit_rows rows) ≡ current_of v rows
  current_of-credit_ne v [] h = refl
  current_of-credit_ne v (row ∷ rows) h = ground (arith, current_of-credit_ne v rows h)

  current_of-credit_self :
      (rows : List BalanceRow)
      → any (λ row. row.user_id == u) rows ≡ true
      → current_of u (credit_rows rows) ≡ current_of u rows +ℤ amount
  current_of-credit_self [] h = cc
  current_of-credit_self (row ∷ rows) h = ground (arith, current_of-credit_self rows)

  withdrawn_of-credit :
      (v : ℕ) (rows : List BalanceRow) → withdrawn_of v (credit_rows rows) ≡ withdrawn_of v rows
  withdrawn_of-credit v [] = refl
  withdrawn_of-credit v (row ∷ rows) = ground (arith, withdrawn_of-credit v rows)

  current_of_unknown :
      (rows : List BalanceRow)
      → any (λ row. row.user_id == u) rows ≡ false
      → current_of u rows ≡ pos 0
  current_of_unknown [] h = refl
  current_of_unknown (row ∷ rows) h = ground (arith, current_of_unknown rows)

  withdrawn_of_unknown :
      (rows : List BalanceRow)
      → any (λ row. row.user_id == u) rows ≡ false
      → withdrawn_of u rows ≡ pos 0
  withdrawn_of_unknown [] h = refl
  withdrawn_of_unknown (row ∷ rows) h = ground (arith, withdrawn_of_unknown rows)

  -- An upsert adds the amount to the user's points, and to nobody else's.
  current_of-upsert_self :
      (rows : List BalanceRow)
      → current_of u (upsert_row u amount rows) ≡ current_of u rows +ℤ amount
  current_of-upsert_self rows = elim (Bool-cases (any (λ row. row.user_id == u) rows)) [
    | inl known ↦ rw known (current_of-credit_self rows known)
    | inr unknown ↦ rw (unknown, current_of_unknown rows unknown) (rw (==_refl u) (omega int_laws))
  ]

  pub current_of-upsert :
      (v : ℕ) (rows : List BalanceRow)
      → current_of v (upsert_row u amount rows)
        ≡ (if u == v then current_of v rows +ℤ amount else current_of v rows)
  current_of-upsert v rows = elim (Bool-cases (u == v)) [
    | inl same ↦ rw same (
        subst (λ w. current_of w (upsert_row u amount rows) ≡ current_of w rows +ℤ amount)
          ((==_iff _ _).0 same) (current_of-upsert_self rows))
    | inr other ↦ elim (Bool-cases (any (λ row. row.user_id == u) rows)) [
      | inl known ↦ rw (known, other) (current_of-credit_ne v rows other)
      | inr unknown ↦ rw (unknown, other)
    ]
  ]

  pub withdrawn_of-upsert :
      (v : ℕ) (rows : List BalanceRow)
      → withdrawn_of v (upsert_row u amount rows) ≡ withdrawn_of v rows
  withdrawn_of-upsert v rows = elim (Bool-cases (any (λ row. row.user_id == u) rows)) [
    | inl known ↦ rw known (withdrawn_of-credit v rows)
    | inr unknown ↦ elim (Bool-cases (u == v)) [
      | inl same ↦
          rw (unknown, same)
            (subst (λ w. pos 0 ≡ withdrawn_of w rows) ((==_iff _ _).0 same)
              (sym (withdrawn_of_unknown rows unknown)))
      | inr other ↦ rw (unknown, other)
    ]
  ]
