-- ===== src/Balance/Handler.antt =====
-- internal/balance/handler.go, and `toDTO` of balance.go. Decoding a request's JSON is foreign code,
-- a parameter of the handler.
use loyalty_system.Prelude.{ℕ, List, [], ◌∷◌, map, Text, if◌then◌else◌}
use loyalty_system.Prelude.Int.{ℤ}
use loyalty_system.Errors.{
  errors_is, invalid_order_number, insufficient_funds, withdrawal_already_exists, Result, ok, err,
  Reply, done, fault,
}
use loyalty_system.Http.{
  Response, Handler, value, write_header, write_json, write_error, respond, with_user, after_call,
}
use loyalty_system.User.Context.{user_id_from_context}
use loyalty_system.Balance.{UserBalance, Withdrawal, WithdrawOpt}
use loyalty_system.Balance.Service.{
  RepoProvider, service_withdraw, service_balance, service_withdrawals,
}

pub record WithdrawalDto : Type 0 where
  pub order : Text
  pub sum : ℤ
  pub processed_at : ℕ

abbrev pub to_dto : Withdrawal → WithdrawalDto
to_dto w = record { order = w.order; sum = w.sum; processed_at = w.processed_at }

abbrev pub withdrawals_map_to_dto : List Withdrawal → List WithdrawalDto
withdrawals_map_to_dto withdrawals = map to_dto withdrawals

-- The `switch` on the error of the service.
abbrev pub withdrew : {A : Type 0} → Result (Unit {0}) → Response A
withdrew (ok _) = write_header 200
withdrew (err e) =
    if errors_is e invalid_order_number
    then write_error 422 "invalid order number format"
    else if errors_is e insufficient_funds
    then write_error 402 "not enough funds"
    else if errors_is e withdrawal_already_exists
    then write_error 409 "withdrawal for this order already exists"
    else write_error 500 "internal server error"

abbrev pub got_balance : Result UserBalance → Response UserBalance
got_balance (ok balance) = write_json 200 (value balance)
got_balance (err e) = write_error 500 "internal server error"

abbrev pub got_withdrawals : Result (List Withdrawal) → Response (List WithdrawalDto)
got_withdrawals (err e) = write_error 500 "internal server error"
got_withdrawals (ok []) = write_header 204
got_withdrawals (ok (w ∷ withdrawals)) =
    write_json 200 (value (withdrawals_map_to_dto (w ∷ withdrawals)))

module _ {W : Type 0} (repo : RepoProvider W) where
  abbrev pub with_opt : {A : Type 0} → ℕ → Reply WithdrawOpt → W → Response A × W
  with_opt user_id (fault n) w = respond (write_error 400 "invalid request format") w
  with_opt user_id (done opt) w = after_call withdrew (service_withdraw repo user_id opt w)

  unfoldable pub withdraw_handler :
      (decode : Reply Text → Reply WithdrawOpt) {A : Type 0} → Handler W A
  withdraw_handler decode r =
      with_user (user_id_from_context r.context) (λ user_id. with_opt user_id (decode r.body))

  unfoldable pub get_balance_handler : Handler W UserBalance
  get_balance_handler r =
      with_user (user_id_from_context r.context)
        (λ user_id w. after_call got_balance (service_balance repo user_id w))

  unfoldable pub get_withdrawals_handler : Handler W (List WithdrawalDto)
  get_withdrawals_handler r =
      with_user (user_id_from_context r.context)
        (λ user_id w. after_call got_withdrawals (service_withdrawals repo user_id w))
