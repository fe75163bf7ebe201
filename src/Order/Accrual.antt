-- ===== src/Order/Accrual.antt =====
-- internal/order/accrual.go: the answers of the accrual system, as they act on an order.
use loyalty_system.Prelude.{
  ◌≡◌, ◌↔◌, ◌⊎◌, inl, inr, true, false, ◌||◌, Option, none, some, [], Text, text_eq, text_eq_iff,
  if◌then◌else◌, arith, subst, sym, ◌∙◌,
}
use loyalty_system.Prelude.Int.{ℤ, pos}
use loyalty_system.Errors.{
  Error, sentinel, wrap, unknown_accrual_status, not_found, errors_is, as_rate_limited, Result, ok,
  err,
}
use loyalty_system.Pg.{Status, new, processing, invalid, processed}
use loyalty_system.AccrualClient.{
  OrderInfo, Provider, status_registered, status_invalid, status_processing, status_processed,
  is_final, validate,
}
use loyalty_system.Order.{Order}

-- `fmt.Errorf("%w: %q", ErrUnknownAccrualStatus, external)`
abbrev pub unknown_error : Error
unknown_error = wrap "" (sentinel unknown_accrual_status)

-- The `switch` of `MapAccrualStatus`.
abbrev pub switch_status : Text → Result Status
switch_status external =
    if text_eq external status_registered || text_eq external status_processing
    then ok processing
    else if text_eq external status_invalid
    then ok invalid
    else if text_eq external status_processed
    then ok processed
    else err unknown_error

unfoldable pub map_accrual_status : Text → Result Status
map_accrual_status external = elim (validate external) [
  | ok _ ↦ switch_status external
  | err _ ↦ err unknown_error
]

abbrev pub new_accrual : Option ℤ → ℤ → ℤ
new_accrual none accrual = accrual
new_accrual (some a) accrual = a

-- `ApplyAccrualInfo` on the order that the pointer refers to: the order is left alone on an error.
unfoldable pub apply_accrual_info : Order → OrderInfo → Result Order
apply_accrual_info o info = elim (map_accrual_status info.status) [
  | ok status ↦ ok (record o { status = status; accrual = new_accrual info.accrual o.accrual })
  | err e ↦ err e
]

pub data AccrualPollOutcome : Type 0 where
  updated not_registered rate_limited transient_error : AccrualPollOutcome

-- The four results of `PollOrder`: the outcome, the order's info, how long to wait, and the error.
pub record Poll : Type 0 where
  pub outcome : AccrualPollOutcome
  pub info : OrderInfo
  pub retry_after : ℤ
  pub error : Option Error

abbrev pub empty_info : OrderInfo
empty_info = record { order = []; status = []; accrual = none }

abbrev pub limited_or_transient : Option ℤ → Error → Poll
limited_or_transient (some wait) e = record {
  outcome = rate_limited;
  info = empty_info;
  retry_after = wait;
  error = none;
}
limited_or_transient none e = record {
  outcome = transient_error;
  info = empty_info;
  retry_after = pos 0;
  error = some e;
}

abbrev pub poll_of : Result OrderInfo → Poll
poll_of (ok info) = record { outcome = updated; info = info; retry_after = pos 0; error = none }
poll_of (err e) =
    if errors_is e not_found
    then record { outcome = not_registered; info = empty_info; retry_after = pos 0; error = none }
    else limited_or_transient (as_rate_limited e) e

unfoldable pub poll_order : {W : Type 0} → Provider W → Text → W → Poll × W
poll_order client number w = let (r, w') = client.get_order_info number w in (poll_of r, w')

-- A text is one of the four statuses, or none of them.
abbrev pub IsForeign : Text → Type 0
IsForeign x =
    (text_eq x status_registered ≡ false)
    × (text_eq x status_invalid ≡ false)
    × (text_eq x status_processing ≡ false)
    × (text_eq x status_processed ≡ false)

status_cases :
    (x : Text)
    → (x ≡ status_registered)
      ⊎ ((x ≡ status_processing) ⊎ ((x ≡ status_invalid) ⊎ ((x ≡ status_processed) ⊎ IsForeign x)))
status_cases x = ground (
  arith,
  text_eq_iff x status_registered,
  text_eq_iff x status_processing,
  text_eq_iff x status_invalid,
  text_eq_iff x status_processed,
)

-- What `MapAccrualStatus` gives for each status of the contract.
module _ {x : Text} where
  map_registered : x ≡ status_registered → map_accrual_status x ≡ ok processing
  unfolding map_accrual_status validate text_eq
  map_registered e = rw e

  map_processing : x ≡ status_processing → map_accrual_status x ≡ ok processing
  unfolding map_accrual_status validate text_eq
  map_processing e = rw e

  map_invalid : x ≡ status_invalid → map_accrual_status x ≡ ok invalid
  unfolding map_accrual_status validate text_eq
  map_invalid e = rw e

  pub map_processed : x ≡ status_processed → map_accrual_status x ≡ ok processed
  unfolding map_accrual_status validate text_eq
  map_processed e = rw e

map_foreign : (x : Text) → IsForeign x → map_accrual_status x ≡ err unknown_error
unfolding map_accrual_status validate
map_foreign x h = ground arith

-- `ApplyAccrualInfo` refuses only an unknown status.
pub apply_accrual_info-unknown :
    (o : Order) (info : OrderInfo) (e : Error)
    → apply_accrual_info o info ≡ err e
    → IsForeign info.status × (e ≡ unknown_error)
unfolding apply_accrual_info
apply_accrual_info-unknown o info e h = elim (status_cases info.status) [
  | inl s ↦ let h' = rw (map_registered s, apply_accrual_info) at h in cc
  | inr (inl s) ↦ let h' = rw (map_processing s, apply_accrual_info) at h in cc
  | inr (inr (inl s)) ↦ let h' = rw (map_invalid s, apply_accrual_info) at h in cc
  | inr (inr (inr (inl s))) ↦ let h' = rw (map_processed s, apply_accrual_info) at h in cc
  | inr (inr (inr (inr f))) ↦
      let h' = rw (map_foreign info.status f, apply_accrual_info) at h in (f, cc)
]

-- What the table in the source's comment says of an external status and an order's status.
abbrev pub Maps : Text → Status → Type 0
Maps external new = ⊥
Maps external processing = (external ≡ status_registered) ⊎ (external ≡ status_processing)
Maps external invalid = external ≡ status_invalid
Maps external processed = external ≡ status_processed

ok_eq : {A : Type 0} {a b : A} → ok a ≡ ok b → a ≡ b
ok_eq e = cc e

Maps-of_ok :
    (external : Text) (status : Status)
    → map_accrual_status external ≡ ok status
    → Maps external status
Maps-of_ok external status h = elim (status_cases external) [
  | inl e ↦ subst (Maps external) (ok_eq (sym (map_registered e) ∙ h)) (inl e)
  | inr (inl e) ↦ subst (Maps external) (ok_eq (sym (map_processing e) ∙ h)) (inr e)
  | inr (inr (inl e)) ↦ subst (Maps external) (ok_eq (sym (map_invalid e) ∙ h)) e
  | inr (inr (inr (inl e))) ↦ subst (Maps external) (ok_eq (sym (map_processed e) ∙ h)) e
  | inr (inr (inr (inr f))) ↦ absurd (cc (map_foreign external f))
]

ok_of_Maps :
    (external : Text) (status : Status)
    → Maps external status
    → map_accrual_status external ≡ ok status
ok_of_Maps external new m = absurd m
ok_of_Maps external processing (inl e) = map_registered e
ok_of_Maps external processing (inr e) = map_processing e
ok_of_Maps external invalid e = map_invalid e
ok_of_Maps external processed e = map_processed e

-- `MapAccrualStatus` gives an order's status exactly where the table of the source's comment does:
-- REGISTERED and PROCESSING give PROCESSING, INVALID and PROCESSED give themselves, nothing gives NEW,
-- and every other text is an error.
pub map_accrual_status_iff :
    (external : Text) (status : Status)
    → (map_accrual_status external ≡ ok status) ↔ Maps external status
map_accrual_status_iff external status = (Maps-of_ok external status, ok_of_Maps external status)

final_iff :
    (x : Text) (status : Status)
    → Maps x status
    → (is_final x ≡ true) ↔ ((status ≡ invalid) ⊎ (status ≡ processed))
unfolding is_final text_eq
final_iff x new m = absurd m
final_iff x processing (inl e) = rw e (ground arith)
final_iff x processing (inr e) = rw e (ground arith)
final_iff x invalid e = rw e (ground arith)
final_iff x processed e = rw e (ground arith)

-- Where `MapAccrualStatus` succeeds, the external status is final (`IsFinal`) exactly if the order's
-- status is INVALID or PROCESSED.
pub map_accrual_status-is_final :
    (external : Text) (status : Status)
    → map_accrual_status external ≡ ok status
    → (is_final external ≡ true) ↔ ((status ≡ invalid) ⊎ (status ≡ processed))
map_accrual_status-is_final external status h =
    final_iff external status (Maps-of_ok external status h)
