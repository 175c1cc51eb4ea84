-- ===== src/Orders/Cancel.antt =====
-- cancelOrder, reverseCapturedPaymentsForOrder and forceCancelOrder of
-- src/modules/orders/orders.service.ts.
pub mod Items
pub mod Net
pub mod Stale
pub mod Attempts
pub mod Force
mod Tests
use openeos_api.Base.{
  ℕ, Bool, true, false, not, exists, ◌==◌, Option, none, some, String, List, [], ◌∷◌, map,
  if◌then◌else◌,
}
use openeos_api.Entities.{
  Order, OrderItem, OrderStatus, OrderItemStatus, Payment, User, OrderAuditLog, TseTransactionData,
  force_cancel_action, order_state,
}
use openeos_api.Store.{
  Store, Env, M, pure, gets, raise, raise_if, ◌>>=◌, ◌>>◌, bad_request, validation_error,
  tse_reversal_required, query_failed,
}
use openeos_api.Access.{check_membership, check_org_admin}
use openeos_api.Payments.Reversal.{captured_payments, reverse_payment, is_failed, failure_of}
use openeos_api.Orders.Rows.{find_one, save_order, save_item, or_null}
use openeos_api.Orders.Stock.{restore_stock_for_item}
use openeos_api.Orders.Status.{is_completed, is_cancelled_order, save_audit}

abbrev pub cancelled_item : OrderItem → OrderItem
cancelled_item i = record i { status = OrderItemStatus.cancelled }

-- The loop over the items: the stock comes back, and the item is saved as cancelled.
unfoldable pub cancel_items : ℕ → List OrderItem → ℕ → M (Unit {0})
cancel_items oid [] user_id = pure tt
cancel_items oid (i ∷ is) user_id = do
  restore_stock_for_item oid i user_id
  save_item oid (cancelled_item i)
  cancel_items oid is user_id

abbrev pub cancelled_order : Env → Option String → Order → Order
cancelled_order env reason o = record o {
  status = OrderStatus.cancelled;
  cancelled_at = some env.now;
  cancellation_reason = reason;
  items = map cancelled_item o.items;
}

unfoldable pub reverse_all : Env → ℕ → Order → List (ℕ × Payment) → M (Unit {0})
reverse_all env org o [] = pure tt
reverse_all env org o ((pid, p) ∷ rows) = do
  reverse_payment env org o pid p
  reverse_all env org o rows

unfoldable pub reverse_captured_payments_for_order : Env → ℕ → ℕ → Order → M (Unit {0})
unfolding reverse_all
reverse_captured_payments_for_order env org oid o =
    gets (λ s. captured_payments oid s.payments) >>= reverse_all env org o

unfoldable pub cancel_order : Env → ℕ → ℕ → Option String → User → M Order
cancel_order env org oid reason user = do
  check_membership org user.id
  o ← find_one org oid user
  raise_if (is_completed o.status) (bad_request validation_error)
  raise_if (is_cancelled_order o.status) (bad_request validation_error)
  cancel_items oid o.items user.id
  save_order oid (cancelled_order env (or_null reason) o)
  reverse_captured_payments_for_order env org oid (cancelled_order env (or_null reason) o)
  find_one org oid user

abbrev pub cancel_audit :
    ℕ → ℕ → Order → String → User → Option Order → Option TseTransactionData → OrderAuditLog
cancel_audit org oid o reason user after tse = record {
  organization_id = org;
  order_id = oid;
  actor_user_id = user.id;
  action = force_cancel_action;
  reason = reason;
  before = order_state o.status o.payment_status;
  after = elim after [ none ↦ none | some a ↦ some (order_state a.status a.payment_status) ];
  failure = failure_of tse;
}

-- A reversal that was not signed: the attempt goes into the audit trail, and the call is refused.
unfoldable pub abort_if_failed :
    ℕ → ℕ → Order → String → User → Option TseTransactionData → M (Unit {0})
unfolding save_audit
abort_if_failed org oid o reason user tse =
    if is_failed tse
    then save_audit (cancel_audit org oid o reason user none tse)
      >> raise (bad_request tse_reversal_required)
    else pure tt

unfoldable pub force_reverse_all :
    Env → ℕ → ℕ → Order → String → User → List (ℕ × Payment) → M (Unit {0})
unfolding abort_if_failed
force_reverse_all env org oid o reason user [] = pure tt
force_reverse_all env org oid o reason user ((pid, p) ∷ rows) = do
  tse ← reverse_payment env org o pid p
  abort_if_failed org oid o reason user tse
  force_reverse_all env org oid o reason user rows

-- The ids of the payments of an order: the relation `payments`, which findOne loads.
unfoldable pub payments_of : ℕ → List (ℕ × Payment) → List ℕ
payments_of oid [] = []
payments_of oid ((pid, p) ∷ rows) =
    if p.order_id == oid then pid ∷ payments_of oid rows else payments_of oid rows

abbrev pub is_in : ℕ → List ℕ → Bool
is_in k ids = exists (λ j. j == k) ids

-- Has the order a payment that is not among the loaded ones?
abbrev pub has_unloaded : ℕ → List ℕ → List (ℕ × Payment) → Bool
has_unloaded oid loaded rows = exists (λ k. not (is_in k loaded)) (payments_of oid rows)

-- `save` of an order with `payments` loaded: the ORM detaches the payments that the order has in the
-- database and not in the loaded relation, by setting their order_id to NULL. The column is NOT NULL,
-- so the database refuses the statement, and nothing of this `save` is kept.
unfoldable pub save_loaded_order : ℕ → List ℕ → Order → M (Unit {0})
unfolding payments_of
save_loaded_order oid loaded o = do
  unloaded ← gets λ s. has_unloaded oid loaded s.payments
  raise_if unloaded query_failed
  save_order oid o

unfoldable pub force_cancel_order : Env → ℕ → ℕ → String → User → M Order
unfolding save_audit save_loaded_order
force_cancel_order env org oid reason user = do
  check_org_admin org user
  o ← find_one org oid user
  raise_if (is_cancelled_order o.status) (bad_request validation_error)
  loaded ← gets λ s. payments_of oid s.payments
  captured ← gets λ s. captured_payments oid s.payments
  force_reverse_all env org oid o reason user captured
  cancel_items oid o.items user.id
  save_loaded_order oid loaded (cancelled_order env (some reason) o)
  save_audit (cancel_audit org oid o reason user (some (cancelled_order env (some reason) o)) none)
  find_one org oid user
