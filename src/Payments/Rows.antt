-- ===== src/Payments/Rows.antt =====
-- findOne, getProviderForMethod, updateOrderPaymentStatus and signPaymentWithTse of
-- src/modules/payments/payments.service.ts.
use openeos_api.Base.{
  ℕ, ℤ, pos, leb_ℤ, ltb_ℤ, Option, none, some, List, map, if◌then◌else◌, is_empty, get, ◌==◌,
}
use openeos_api.Entities.{
  Order, Payment, PaymentMethod, PaymentProvider, PaymentStatus, User, TseTransactionData,
  TseVatSplit,
}
use openeos_api.Store.{
  Env, M, pure, raise, gets, or_raise, ◌>>=◌, ◌>>◌, not_found, not_found_code, type_error,
}
use openeos_api.Access.{check_membership}
use openeos_api.Orders.Rows.{stored_order, save_order}
use openeos_api.Tse.{record_transaction}
use openeos_api.VatSplit.{VatSplitItem, splits_from_items, allocate_to_amount, split_item}
use openeos_api.Payments.Reversal.{save_payment}
use openeos_api.Payments.Doubles.{number_of}

-- The order of a payment must be there and be the organization's.
abbrev pub owned : ℕ → Payment → Option Order → M Payment
owned org p none = raise type_error
owned org p (some o) = if o.organization_id == org then pure p else raise (not_found not_found_code)

unfoldable pub find_one : ℕ → ℕ → User → M Payment
find_one org pid user = do
  check_membership org user.id
  found ← gets λ s. get pid s.payments
  p ← or_raise found (not_found not_found_code)
  gets (stored_order p.order_id) >>= owned org p

abbrev pub get_provider_for_method : PaymentMethod → PaymentProvider
get_provider_for_method PaymentMethod.cash = PaymentProvider.cash
get_provider_for_method PaymentMethod.card = PaymentProvider.card
get_provider_for_method PaymentMethod.sumup_terminal = PaymentProvider.sumup
get_provider_for_method PaymentMethod.sumup_online = PaymentProvider.sumup
get_provider_for_method _ = PaymentProvider.cash

-- The payment status that belongs to a paid amount and a total, both as numbers.
unfoldable pub payment_status_for : ℤ → ℤ → PaymentStatus
payment_status_for paid_amount total =
    if leb_ℤ total paid_amount
    then PaymentStatus.paid
    else if ltb_ℤ (pos 0) paid_amount
    then PaymentStatus.partly_paid
    else PaymentStatus.unpaid

-- The order holds what is paid in cents, as its column does; `paid` is the number that the caller
-- computed it as.
abbrev pub with_payment_status : ℤ → Order → Order
with_payment_status paid o = record o {
  payment_status = payment_status_for paid (number_of o.total);
}

-- `updateOrderPaymentStatus`: the saved order is also the caller's from here on.
unfoldable pub update_order_payment_status : ℕ → ℤ → Order → M Order
update_order_payment_status oid paid o = do
  save_order oid (with_payment_status paid o)
  pure (with_payment_status paid o)

abbrev pub keep_tse_data : ℕ → Payment → Option TseTransactionData → M (Unit {0})
keep_tse_data pid p none = pure tt
keep_tse_data pid p (some t) = save_payment pid (record p { tse_data = some t })

-- The composition that is signed: the rows of a split payment, or else the whole order.
unfoldable pub payment_splits : Order → Payment → List VatSplitItem → List TseVatSplit
payment_splits o p split_items =
    allocate_to_amount
      (splits_from_items (if is_empty split_items then map split_item o.items else split_items))
      p.amount

unfoldable pub sign_payment_with_tse : Env → ℕ → Order → Payment → List VatSplitItem → M (Unit {0})
sign_payment_with_tse env pid o p split_items = do
  tse ← record_transaction env o.organization_id o.created_by_device_id (record {
    amount = p.amount;
    payment_method = p.payment_method;
    vat_splits = payment_splits o p split_items;
  })
  keep_tse_data pid p tse
