-- ===== src/Balance/Responses.antt =====
-- `POST /api/user/balance/withdraw` of internal/balance/handler.go over the service and the
-- repository: the status of each response, and what the request leaves in the tables.
use loyalty_system.Prelude.{ℕ, ◌≡◌, ◌⊎◌, true, false}
use loyalty_system.Luhn.{valid}
use loyalty_system.Pg.{Pg, Tables}
use loyalty_system.Balance.{WithdrawOpt}
use loyalty_system.Balance.Debit.{covered, withdrawn_already, debited}

-- How a withdrawal is answered, and what it leaves in the tables.
pub data Responds (user_id : ℕ) (opt : WithdrawOpt) (t : Tables) (status : ℕ) (t' : Tables)
    : Type 0 where
  unprocessable : valid opt.order ≡ false → status ≡ 422 → t' ≡ t → Responds user_id opt t status t'
  paid :
      valid opt.order ≡ true
      → covered user_id opt.sum t ≡ true
      → withdrawn_already user_id opt.order t ≡ false
      → (now : ℕ) → status ≡ 200
      → t' ≡ debited user_id opt now t
      → Responds user_id opt t status t'
  payment_required :
      valid opt.order ≡ true
      → covered user_id opt.sum t ≡ false
      → status ≡ 402
      → t' ≡ t
      → Responds user_id opt t status t'
  conflict :
      valid opt.order ≡ true
      → covered user_id opt.sum t ≡ true
      → withdrawn_already user_id opt.order t ≡ true
      → status ≡ 409
      → t' ≡ t
      → Responds user_id opt t status t'
  broken :
      valid opt.order ≡ true
      → status ≡ 500
      → (t' ≡ t)
        ⊎ ((now : ℕ) × (covered user_id opt.sum t ≡ true)
            × (withdrawn_already user_id opt.order t ≡ false)
            × (t' ≡ debited user_id opt now t))
      → Responds user_id opt t status t'
