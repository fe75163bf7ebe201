-- ===== src/Worker/Stores.antt =====
-- The two calls of internal/order/repo.go that `applyAccrualUpdate` makes: reading an order by its
-- id, and storing its status and points.
use loyalty_system.Prelude.{
  ℕ, ◌≡◌, refl, ap, ◌∙◌, ◌⊎◌, inl, inr, Option, none, some, find, ◌==◌, Option-cases,
}
use loyalty_system.Prelude.Int.{ℤ}
use loyalty_system.Errors.{Error, sentinel, wrap, foreign, no_rows, Result, ok, err}
use loyalty_system.Pg.{Pg, PgLaws, Env, Tables, OrderRow, Status, update}
use loyalty_system.Pg.Lookup.{row_reply, one_row-select}
use loyalty_system.Order.{
  Order, to_struct, get_order_by_id, update_order_accrual, order_by_id_query, update_accrual_stmt,
}

-- The order's row, and the orders after an update of it.
abbrev pub row_of : ℕ → Tables → Option OrderRow
row_of id t = find (λ row. row.id == id) t.orders

abbrev pub updated_orders : ℕ → Status → ℤ → Tables → Tables
updated_orders id status accrual t = record t {
  orders =
      update (λ row. row.id == id) (λ row. record row { status = status; accrual = some accrual })
        t.orders;
}

-- Why an order could not be read: there is none with the id, or the server failed.
abbrev pub IsUnread : ℕ → Tables → Error → Type 0
IsUnread id t e =
    ((row_of id t ≡ none) × (e ≡ wrap "failed to collect order by id" (sentinel no_rows)))
    ⊎ ((n : ℕ) × (e ≡ wrap "failed to collect order by id" (foreign n)))

-- How a call of `UpdateOrderAccrual` ends.
pub data Stores (id : ℕ) (status : Status) (accrual : ℤ) (t : Tables) (r : Result (Unit {0}))
    (t' : Tables) : Type 0 where
  stored : r ≡ ok tt → t' ≡ updated_orders id status accrual t → Stores id status accrual t r t'
  not_stored :
      (n : ℕ)
      → r ≡ err (wrap "failed to update order accrual" (foreign n))
      → (t' ≡ t) ⊎ (t' ≡ updated_orders id status accrual t)
      → Stores id status accrual t r t'

pub update_lem :
    (id : ℕ) (status : Status) (accrual : ℤ) (env : Env) (t : Tables)
    → update_accrual_stmt id status accrual env t ≡ (ok tt, updated_orders id status accrual t)
unfolding update_accrual_stmt
update_lem id status accrual env t = refl

pub by_id_lem :
    (id : ℕ) (env : Env) (t : Tables)
    → order_by_id_query id env t ≡ (row_reply to_struct (row_of id t), t)
unfolding order_by_id_query
by_id_lem id env t = ap (λ (r : Result Order). (r, t)) (one_row-select to_struct _ t.orders)

module _ (pg : Pg) (laws : PgLaws pg) (id : ℕ) (s : pg.Server) where
  pub update_order_accrual-Stores :
      (status : Status) (accrual : ℤ)
      → let (r, s') = update_order_accrual pg id status accrual s in
        Stores id status accrual (pg.tables s) r (pg.tables s')
  unfolding update_order_accrual
  update_order_accrual-Stores status accrual =
      let (env, outcome) = laws.query_answers Unit (update_accrual_stmt id status accrual) s in
      let e = update_lem id status accrual env (pg.tables s) in
      let kept = ap (λ (x : Result Unit × Tables). x.1) e in
      elim outcome [
        | inl (reply, after) ↦
            rw (reply ∙ ap (λ (x : Result Unit × Tables). x.0) e) (stored refl (after ∙ kept))
        | inr (n, reply, inl after) ↦ rw reply (not_stored n refl (inl after))
        | inr (n, reply, inr after) ↦ rw reply (not_stored n refl (inr (after ∙ kept)))
      ]

  -- Reading an order: its row, or an error; the tables stay.
  pub get_order_by_id-cases :
      let (r, s') = get_order_by_id pg id s in
      (pg.tables s' ≡ pg.tables s)
      × (((row : OrderRow) × (row_of id (pg.tables s) ≡ some row) × (r ≡ ok (to_struct row)))
          ⊎ ((e : Error) × (r ≡ err e) × IsUnread id (pg.tables s) e))
  unfolding get_order_by_id
  get_order_by_id-cases =
      let (env, outcome) = laws.query_answers Order (order_by_id_query id) s in
      let e = by_id_lem id env (pg.tables s) in
      let q = ap (λ (x : Result Order × Tables). x.0) e in
      let kept = ap (λ (x : Result Order × Tables). x.1) e in
      elim outcome [
        | inl (reply, after) ↦ (
          after ∙ kept,
          elim (Option-cases (row_of id (pg.tables s))) [
            | inl missing ↦
                rw (reply ∙ q ∙ ap (row_reply to_struct) missing)
                  (inr (_, refl, inl (missing, refl)))
            | inr (row, held) ↦
                rw (reply ∙ q ∙ ap (row_reply to_struct) held) (inl (row, held, refl))
          ],
        )
        | inr (n, reply, inl after) ↦ (after, rw reply (inr (_, refl, inr (n, refl))))
        | inr (n, reply, inr after) ↦ (after ∙ kept, rw reply (inr (_, refl, inr (n, refl))))
      ]
