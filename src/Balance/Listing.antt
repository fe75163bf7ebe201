-- ===== src/Balance/Listing.antt =====
-- `GET /api/user/balance` and `GET /api/user/withdrawals` of internal/balance/handler.go, over the
-- service and the repository.
use mathlib.Core.List.{Perm}
use loyalty_system.Prelude.{
  ℕ, ◌≡◌, refl, ap, inl, inr, none, some, List, [], ◌∷◌, map, find, ltb, ◌==◌, arith, ◌⊎◌,
  Bool-cases, ==_iff,
}
use loyalty_system.Prelude.Int.{pos}
use loyalty_system.Errors.{Result, ok}
use loyalty_system.Http.{Request, Response, value, error_body, write_header}
use loyalty_system.User.Context.{user_id_from_context}
use loyalty_system.Pg.{Pg, PgLaws, Tables, BalanceRow, WithdrawalRow, select, order_by}
use loyalty_system.Pg.Lookup.{row_reply, one_row-select}
use loyalty_system.Pg.Sorting.{IsOrdered, order_by-IsOrdered, order_by-perm}
use loyalty_system.Pg.Reads.{query-reads}
use loyalty_system.Balance.{
  UserBalance, newer, withdrawals_query, select_withdrawals, withdrawal_of, balance_of,
  balance_query, select_balance,
}
use loyalty_system.Balance.Service.{repo_of, service_balance, service_withdrawals}
use loyalty_system.Balance.Handler.{
  WithdrawalDto, to_dto, get_balance_handler, get_withdrawals_handler, got_withdrawals,
}
use loyalty_system.Balance.Ledger.{current_of, withdrawn_of}

-- The user's rows, the newest first.
abbrev pub IsHistory : ℕ → Tables → List WithdrawalRow → Type 0
IsHistory user_id t rows =
    Perm rows (select (λ row. row.user_id == user_id) t.withdrawals)
    × IsOrdered (λ a b. ltb b.processed_at a.processed_at) rows

abbrev pub shown : WithdrawalRow → WithdrawalDto
shown row = record { order = row.order_number; sum = row.sum; processed_at = row.processed_at }

-- How the list of withdrawals is answered.
pub data Lists (user_id : ℕ) (t : Tables) (response : Response (List WithdrawalDto)) : Type 0 where
  nothing_withdrawn :
      IsHistory user_id t [] → response ≡ write_header 204 → Lists user_id t response
  listed :
      (row : WithdrawalRow) (rows : List WithdrawalRow)
      → IsHistory user_id t (row ∷ rows)
      → response.status ≡ 200
      → response.body ≡ value (map shown (row ∷ rows))
      → Lists user_id t response
  broken :
      response.status ≡ 500
      → response.body ≡ error_body "internal server error"
      → Lists user_id t response

abbrev history : ℕ → Tables → List WithdrawalRow
history user_id t = order_by newer (select (λ row. row.user_id == user_id) t.withdrawals)

history-IsHistory : (user_id : ℕ) (t : Tables) → IsHistory user_id t (history user_id t)
history-IsHistory user_id t = (
  order_by-perm newer (select (λ row. row.user_id == user_id) t.withdrawals),
  order_by-IsOrdered newer (λ a b h. ground arith)
      (select (λ row. row.user_id == user_id) t.withdrawals),
)

map-shown : (rows : List WithdrawalRow) → map to_dto (map withdrawal_of rows) ≡ map shown rows
map-shown [] = refl
map-shown (row ∷ rows) = ap (λ (rest : List WithdrawalDto). shown row ∷ rest) (map-shown rows)

got_withdrawals-Lists :
    (user_id : ℕ) (t : Tables) (rows : List WithdrawalRow)
    → IsHistory user_id t rows
    → Lists user_id t (got_withdrawals (ok (map withdrawal_of rows)))
got_withdrawals-Lists user_id t [] h = nothing_withdrawn h refl
got_withdrawals-Lists user_id t (row ∷ rows) h =
    listed row rows h refl (ap value (map-shown (row ∷ rows)))

-- The row of a user that the query finds, and its amounts.
find_row :
    (u : ℕ) (rows : List BalanceRow)
    → ((find (λ row. row.user_id == u) rows ≡ none)
        × (current_of u rows ≡ pos 0)
        × (withdrawn_of u rows ≡ pos 0))
      ⊎ ((row : BalanceRow) × (find (λ row. row.user_id == u) rows ≡ some row)
          × (row.user_id ≡ u)
          × (current_of u rows ≡ row.current)
          × (withdrawn_of u rows ≡ row.withdrawn))
find_row u [] = inl (refl, refl, refl)
find_row u (row ∷ rows) = elim (Bool-cases (row.user_id == u)) [
  | inl mine ↦ inr (row, rw mine, (==_iff row.user_id u).0 mine, rw mine, rw mine)
  | inr other ↦ rw other (find_row u rows)
]

module _ (pg : Pg) (laws : PgLaws pg) (s : pg.Server) (r : Request) (user_id : ℕ)
    (known : user_id_from_context r.context ≡ ok user_id) where
  -- A request for the withdrawals by a known user changes nothing. It is answered 200 with all the
  -- withdrawals of the user and no others, the newest first; 204 if there are none; 500 if the server
  -- fails.
  pub get_withdrawals_handler-Lists :
      let (response, s') = get_withdrawals_handler (repo_of pg) r s in
      Lists user_id (pg.tables s) response × (pg.tables s' ≡ pg.tables s)
  unfolding get_withdrawals_handler service_withdrawals select_withdrawals
  get_withdrawals_handler-Lists =
      let t = pg.tables s in
      let (kept, found) =
        query-reads pg laws (withdrawals_query user_id)
          (λ t. ok (map withdrawal_of (history user_id t)))
          (λ env t. unfold withdrawals_query in refl) s in
      elim found [
        | inl reply ↦
            rw (known, reply)
              (
                got_withdrawals-Lists user_id t (history user_id t) (history-IsHistory user_id t),
                kept,
              )
        | inr (n, reply) ↦ rw (known, reply) (broken refl refl, kept)
      ]

  -- A request for the balance by a known user changes nothing. It is answered 200 with the user's
  -- current and withdrawn points, 0 and 0 for a user without a row; or 500 if the server fails.
  pub get_balance_handler-Shows :
      let (response, s') = get_balance_handler (repo_of pg) r s in
      let t = pg.tables s in
      (pg.tables s' ≡ t)
      × (((response.status ≡ 200)
            × (response.body
                ≡ value (record {
                  user_id = user_id;
                  current = current_of user_id t.user_balance;
                  withdrawn = withdrawn_of user_id t.user_balance;
                })))
          ⊎ ((response.status ≡ 500) × (response.body ≡ error_body "internal server error")))
  unfolding get_balance_handler service_balance select_balance
  get_balance_handler-Shows =
      let t = pg.tables s in
      let (kept, found) =
        query-reads pg laws (balance_query user_id)
          (λ t. row_reply balance_of (find (λ row. row.user_id == user_id) t.user_balance))
          (λ env t.
            unfold balance_query in
            ap (λ (x : Result UserBalance). (x, t)) (one_row-select balance_of _ t.user_balance))
          s in
      elim found [
        | inr (n, reply) ↦ rw (known, reply) (kept, inr (refl, refl))
        | inl reply ↦ elim (find_row user_id t.user_balance) [
          | inl (missing, no_points, none_withdrawn) ↦
              rw (known, reply, missing, no_points, none_withdrawn) (kept, inl (refl, refl))
          | inr (row, held, mine, points, taken) ↦
              rw (known, reply, held, points, taken)
                (
                  kept,
                  inl (
                    refl,
                    ap
                        (λ (u : ℕ). value (record {
                          user_id = u;
                          current = row.current;
                          withdrawn = row.withdrawn;
                        }))
                        mine,
                  ),
                )
        ]
      ]
