-- ===== src/Payments/Reversal.antt =====
-- The reversal of a captured payment, as reverseCapturedPaymentsForOrder and forceCancelOrder of
-- src/modules/orders/orders.service.ts and signReversalWithTse of src/modules/payments/payments.service.ts
-- spell it out: a second row with the negated amount, signed as a transaction of its own. Nothing in
-- the body raises here, so their try blocks never reach a handler.
pub mod Run
pub mod Splits
use openeos_api.Base.{
  ℕ, ℤ, neg, Bool, true, false, ◌&&◌, Option, none, some, List, [], ◌∷◌, map, if◌then◌else◌, ◌==◌,
  is_empty, get, put,
}
use openeos_api.Entities.{
  Order, Payment, PaymentTransactionStatus, TseTransactionData, TseVatSplit, TseFailure,
}
use openeos_api.Store.{Store, Env, M, pure, gets, modify, new_id, ◌>>=◌, ◌>>◌}
use openeos_api.Tse.{TseInput, reverse_transaction}
use openeos_api.VatSplit.{splits_from_items, allocate_to_amount, negate_splits, split_item}

abbrev pub is_captured : PaymentTransactionStatus → Bool
is_captured PaymentTransactionStatus.captured = true
is_captured _ = false

-- `find({ where: { orderId, status: CAPTURED } })`, with the ids of the rows.
unfoldable pub captured_payments : ℕ → List (ℕ × Payment) → List (ℕ × Payment)
captured_payments oid [] = []
captured_payments oid ((pid, p) ∷ rows) =
    if p.order_id == oid && is_captured p.status
    then (pid, p) ∷ captured_payments oid rows
    else captured_payments oid rows

unfoldable pub save_payment : ℕ → Payment → M (Unit {0})
save_payment pid p = modify λ s. record s { payments = put pid p s.payments }

abbrev pub stored_splits : Option TseTransactionData → List TseVatSplit
stored_splits none = []
stored_splits (some t) = t.vat_splits

-- What was signed, negated; without it the order's own composition, scaled.
unfoldable pub reversal_splits : Order → Payment → List TseVatSplit
reversal_splits o p =
    let stored = stored_splits p.tse_data in
    if is_empty stored
    then allocate_to_amount (splits_from_items (map split_item o.items)) (neg p.amount)
    else negate_splits stored

unfoldable pub reversal_of : ℕ → Payment → Option TseTransactionData → Payment
reversal_of pid p tse = record {
  order_id = p.order_id;
  amount = neg p.amount;
  payment_method = p.payment_method;
  payment_provider = p.payment_provider;
  provider_transaction_id = none;
  status = PaymentTransactionStatus.captured;
  tse_data = tse;
  processed_by_user_id = none;
  reverses_payment_id = some pid;
  item_payments = [];
}

abbrev pub reversal_input : Order → Payment → TseInput
reversal_input o p = record {
  amount = p.amount;
  payment_method = p.payment_method;
  vat_splits = reversal_splits o p;
}

unfoldable pub reverse_payment : Env → ℕ → Order → ℕ → Payment → M (Option TseTransactionData)
unfolding reversal_of
reverse_payment env org o pid p = do
  tse ← reverse_transaction env org o.created_by_device_id (reversal_input o p)
  rid ← new_id
  save_payment rid (reversal_of pid p tse)
  pure tse

-- `tseData?.failed`, with the detail that the audit entry takes.
abbrev pub is_failed : Option TseTransactionData → Bool
is_failed none = false
is_failed (some t) = t.failed

abbrev pub failure_of : Option TseTransactionData → Option TseFailure
failure_of none = none
failure_of (some t) = t.failure
