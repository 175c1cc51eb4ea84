-- ===== src/Payments/Refund.antt =====
-- refund, forceRefund and signReversalWithTse of src/modules/payments/payments.service.ts.
pub mod Laws
pub mod Force
mod Tests
use openeos_api.Base.{
  ℕ, ◌-◌, ℤ, pos, ◌-ℤ◌, ltb_ℤ, Bool, true, false, not, Option, none, some, String, List, [], ◌∷◌,
  if◌then◌else◌,
}
use openeos_api.Entities.{
  Order, OrderItem, OrderItemPayment, Payment, PaymentTransactionStatus, User, OrderAuditLog,
  TseTransactionData, TseVatSplit, force_refund_action, payment_state,
}
use openeos_api.Store.{
  Store, Env, M, pure, raise, gets, raise_if, new_id, ◌>>=◌, ◌>>◌, bad_request, validation_error,
  tse_reversal_required,
}
use openeos_api.Access.{check_membership, check_org_admin}
use openeos_api.Tse.{reverse_transaction}
use openeos_api.Orders.Rows.{stored_order, save_item, item_of, put_item}
use openeos_api.Orders.Status.{save_audit}
use openeos_api.Payments.Reversal.{
  save_payment, reverse_payment, reversal_of, reversal_splits, is_captured, is_failed, failure_of,
}
use openeos_api.Payments.Doubles.{number_of, subtract}
use openeos_api.Payments.Rows.{find_one, update_order_payment_status}

abbrev pub refunded_payment : Payment → Payment
refunded_payment p = record p { status = PaymentTransactionStatus.refunded }

-- The paid amount less the refunded one, not below zero, in the cents of the column.
unfoldable pub less_refund : ℤ → ℤ → ℤ
less_refund paid_amount amount =
    if ltb_ℤ (paid_amount -ℤ amount) (pos 0) then pos 0 else paid_amount -ℤ amount

-- `Number(order.paidAmount) - Number(payment.amount)`, not below zero.
abbrev pub not_negative : ℤ → ℤ
not_negative a = if ltb_ℤ a (pos 0) then pos 0 else a

abbrev pub paid_without : Payment → Order → ℤ
paid_without p o = not_negative (subtract (number_of o.paid_amount) (number_of p.amount))

abbrev pub unpaid_item : ℕ → OrderItem → OrderItem
unpaid_item q i = record i { paid_quantity = i.paid_quantity - q }

-- One round of the loop over the item payments; the order that it returns is the loaded one, changed.
abbrev pub revert_item : ℕ → ℕ → Order → Option OrderItem → M Order
revert_item oid q o none = pure o
revert_item oid q o (some i) = do
  save_item oid (unpaid_item q i)
  pure (record o { items = put_item (unpaid_item q i) o.items })

unfoldable pub revert_items : ℕ → List OrderItemPayment → Order → M Order
revert_items oid [] o = pure o
revert_items oid (row ∷ rows) o =
    revert_item oid row.quantity o (item_of row.order_item_id o) >>= revert_items oid rows

-- What both refunds do to the order, if it is there.
abbrev pub refund_order : Payment → Option Order → M (Option Order)
refund_order p none = pure none
refund_order p (some o) = do
  reverted ←
      revert_items p.order_id p.item_payments
        (record o { paid_amount = less_refund o.paid_amount p.amount })
  saved ← update_order_payment_status p.order_id (paid_without p o) reverted
  pure (some saved)

-- `signReversalWithTse`
abbrev pub sign_reversal_with_tse : Env → ℕ → Option Order → ℕ → Payment → M (Unit {0})
sign_reversal_with_tse env org none pid p = pure tt
sign_reversal_with_tse env org (some o) pid p = reverse_payment env org o pid p >> pure tt

unfoldable pub refund : Env → ℕ → ℕ → User → M Payment
unfolding revert_items
refund env org pid user = do
  check_membership org user.id
  p ← find_one org pid user
  raise_if (not (is_captured p.status)) (bad_request validation_error)
  save_payment pid (refunded_payment p)
  found ← gets (stored_order p.order_id)
  o ← refund_order p found
  sign_reversal_with_tse env org o pid (refunded_payment p)
  find_one org pid user

abbrev pub device_of : Option Order → Option ℕ
device_of none = none
device_of (some o) = o.created_by_device_id

abbrev pub splits_of : Option Order → Payment → List TseVatSplit
splits_of none p = []
splits_of (some o) p = reversal_splits o p

abbrev pub refund_audit :
    ℕ → ℕ → Payment → String → User → Bool → Option TseTransactionData → OrderAuditLog
refund_audit org pid p reason user done tse = record {
  organization_id = org;
  order_id = p.order_id;
  actor_user_id = user.id;
  action = force_refund_action;
  reason = reason;
  before = payment_state pid PaymentTransactionStatus.captured;
  after = if done then some (payment_state pid PaymentTransactionStatus.refunded) else none;
  failure = failure_of tse;
}

unfoldable pub abort_refund :
    ℕ → ℕ → Payment → String → User → Option TseTransactionData → M (Unit {0})
unfolding save_audit
abort_refund org pid p reason user tse =
    if is_failed tse
    then save_audit (refund_audit org pid p reason user false tse)
      >> raise (bad_request tse_reversal_required)
    else pure tt

unfoldable pub force_refund : Env → ℕ → ℕ → String → User → M Payment
unfolding abort_refund revert_items save_audit
force_refund env org pid reason user = do
  check_org_admin org user
  p ← find_one org pid user
  raise_if (not (is_captured p.status)) (bad_request validation_error)
  found ← gets (stored_order p.order_id)
  tse ← reverse_transaction env org (device_of found) (record {
    amount = p.amount;
    payment_method = p.payment_method;
    vat_splits = splits_of found p;
  })
  abort_refund org pid p reason user tse
  rid ← new_id
  save_payment rid (reversal_of pid p tse)
  save_payment pid (refunded_payment p)
  refund_order p found
  save_audit (refund_audit org pid p reason user true none)
  find_one org pid user
