-- ===== src/Balance/Ledger.antt =====
-- What the tables of internal/balance/repo.go say of one user, and how an update changes it.
pub mod Upsert
pub mod Points
pub mod Reconciled
use loyalty_system.Prelude.{
  ℕ, ◌≡◌, refl, ◌≢◌, Bool, true, false, List, [], ◌∷◌, any, ◌==◌, if◌then◌else◌, arith, Bool-cases,
  inl, inr, subst, ==_iff,
}
use loyalty_system.Prelude.Int.{ℤ, pos, ◌+ℤ◌, ◌-ℤ◌, ◌≤ℤ◌, leb_ℤ, int_laws}
use loyalty_system.Pg.{BalanceRow, WithdrawalRow, AccrualRow, update}
use loyalty_system.Balance.{is_covered, debit, credit, upsert_row}

-- The user's current and withdrawn points; a user without a row has none.
abbrev pub current_of : ℕ → List BalanceRow → ℤ
current_of u [] = pos 0
current_of u (row ∷ rows) = if row.user_id == u then row.current else current_of u rows

abbrev pub withdrawn_of : ℕ → List BalanceRow → ℤ
withdrawn_of u [] = pos 0
withdrawn_of u (row ∷ rows) = if row.user_id == u then row.withdrawn else withdrawn_of u rows

-- All that was ever credited to a user, and all that the user ever withdrew.
abbrev pub earned : ℕ → List AccrualRow → ℤ
earned u [] = pos 0
earned u (row ∷ rows) = (if row.user_id == u then row.amount else pos 0) +ℤ earned u rows

abbrev pub spent : ℕ → List WithdrawalRow → ℤ
spent u [] = pos 0
spent u (row ∷ rows) = (if row.user_id == u then row.sum else pos 0) +ℤ spent u rows

-- The primary key of user_balance.
abbrev pub HasUniqueUsers : List BalanceRow → Type 0
HasUniqueUsers [] = Unit
HasUniqueUsers (row ∷ rows) =
    (any (λ r. r.user_id == row.user_id) rows ≡ false) × HasUniqueUsers rows

module _ (u : ℕ) (sum : ℤ) where
  any-update-debit :
      (v : ℕ) (rows : List BalanceRow)
      → any (λ r. r.user_id == v) (update (is_covered u sum) (debit sum) rows)
        ≡ any (λ r. r.user_id == v) rows
  any-update-debit v [] = refl
  any-update-debit v (row ∷ rows) = ground (arith, any-update-debit v rows)

  pub debit-HasUniqueUsers :
      (rows : List BalanceRow)
      → HasUniqueUsers rows
      → HasUniqueUsers (update (is_covered u sum) (debit sum) rows)
  debit-HasUniqueUsers [] h = tt
  debit-HasUniqueUsers (row ∷ rows) h =
      ground (arith, any-update-debit row.user_id rows, debit-HasUniqueUsers rows h.1)

  -- Rows of other users are not covered.
  not_covered :
      (rows : List BalanceRow)
      → any (λ r. r.user_id == u) rows ≡ false
      → any (is_covered u sum) rows ≡ false
  not_covered [] h = refl
  not_covered (row ∷ rows) h = ground (arith, not_covered rows)

  current_of-debit_ne :
      (v : ℕ) (rows : List BalanceRow)
      → (u == v) ≡ false
      → current_of v (update (is_covered u sum) (debit sum) rows) ≡ current_of v rows
  current_of-debit_ne v [] h = refl
  current_of-debit_ne v (row ∷ rows) h = ground (arith, current_of-debit_ne v rows h)

  current_of-debit_self :
      (rows : List BalanceRow)
      → HasUniqueUsers rows
      → any (is_covered u sum) rows ≡ true
      → current_of u (update (is_covered u sum) (debit sum) rows) ≡ current_of u rows -ℤ sum
  current_of-debit_self [] h c = cc
  current_of-debit_self (row ∷ rows) h c = elim (Bool-cases (row.user_id == u)) [
    | inl mine ↦
        let only : any (is_covered u sum) rows ≡ false =
          not_covered rows
            (subst (λ w. any (λ r. r.user_id == w) rows ≡ false) ((==_iff _ _).0 mine) h.0) in
        ground (arith, only)
    | inr other ↦ ground (arith, current_of-debit_self rows h.1)
  ]

  pub current_of-debit :
      (v : ℕ) (rows : List BalanceRow)
      → HasUniqueUsers rows
      → any (is_covered u sum) rows ≡ true
      → current_of v (update (is_covered u sum) (debit sum) rows)
        ≡ (if u == v then current_of v rows -ℤ sum else current_of v rows)
  current_of-debit v rows h c = elim (Bool-cases (u == v)) [
    | inl same ↦ rw same (
        subst
          (λ w.
            current_of w (update (is_covered u sum) (debit sum) rows) ≡ current_of w rows -ℤ sum)
          ((==_iff _ _).0 same) (current_of-debit_self rows h c))
    | inr other ↦ rw other (current_of-debit_ne v rows other)
  ]

  withdrawn_of-debit_ne :
      (v : ℕ) (rows : List BalanceRow)
      → (u == v) ≡ false
      → withdrawn_of v (update (is_covered u sum) (debit sum) rows) ≡ withdrawn_of v rows
  withdrawn_of-debit_ne v [] h = refl
  withdrawn_of-debit_ne v (row ∷ rows) h = ground (arith, withdrawn_of-debit_ne v rows h)

  withdrawn_of-debit_self :
      (rows : List BalanceRow)
      → HasUniqueUsers rows
      → any (is_covered u sum) rows ≡ true
      → withdrawn_of u (update (is_covered u sum) (debit sum) rows) ≡ withdrawn_of u rows +ℤ sum
  withdrawn_of-debit_self [] h c = cc
  withdrawn_of-debit_self (row ∷ rows) h c = elim (Bool-cases (row.user_id == u)) [
    | inl mine ↦
        let only : any (is_covered u sum) rows ≡ false =
          not_covered rows
            (subst (λ w. any (λ r. r.user_id == w) rows ≡ false) ((==_iff _ _).0 mine) h.0) in
        ground (arith, only)
    | inr other ↦ ground (arith, withdrawn_of-debit_self rows h.1)
  ]

  pub withdrawn_of-debit :
      (v : ℕ) (rows : List BalanceRow)
      → HasUniqueUsers rows
      → any (is_covered u sum) rows ≡ true
      → withdrawn_of v (update (is_covered u sum) (debit sum) rows)
        ≡ (if u == v then withdrawn_of v rows +ℤ sum else withdrawn_of v rows)
  withdrawn_of-debit v rows h c = elim (Bool-cases (u == v)) [
    | inl same ↦ rw same (
        subst
          (λ w.
            withdrawn_of w (update (is_covered u sum) (debit sum) rows)
            ≡ withdrawn_of w rows +ℤ sum)
          ((==_iff _ _).0 same) (withdrawn_of-debit_self rows h c))
    | inr other ↦ rw other (withdrawn_of-debit_ne v rows other)
  ]
