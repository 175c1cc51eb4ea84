-- ===== src/Orders/Status.antt =====
-- markItemReady, markItemReadyFromDevice, processItemReady, markItemDelivered, callOrder,
-- completeOrder and forceUpdateStatus of src/modules/orders/orders.service.ts.
use openeos_api.Base.{
  ℕ, Bool, true, false, not, ◌&&◌, Option, none, some, String, List, [], ◌∷◌, if◌then◌else◌,
  is_empty, every, ◌==◌,
}
use openeos_api.Entities.{
  Order, OrderItem, OrderStatus, OrderItemStatus, PaymentStatus, User, OrderAuditLog,
  force_update_status_action, status_only,
}
use openeos_api.Store.{
  Env, M, pure, gets, modify, or_raise, raise_if, ◌>>=◌, ◌>>◌, not_found, bad_request, forbidden,
  not_found_code, validation_error, forbidden_code,
}
use openeos_api.Access.{check_membership, check_org_admin}
use openeos_api.Orders.Rows.{
  find_one, reload_order, save_order, save_item, item_of, organization_order, is_live,
}
use openeos_api.Orders.Totals.{is_cancelled}
use openeos_api.Orders.Progress.{active_items, is_delivered, update_order_status}

abbrev pub readied : Env → OrderItem → OrderItem
readied env i = record i { status = OrderItemStatus.ready; ready_at = some env.now }

unfoldable pub process_item_ready : Env → ℕ → ℕ → OrderItem → M Order
process_item_ready env org oid item = do
  save_item oid (readied env item)
  update_order_status oid
  reload_order org oid

unfoldable pub mark_item_ready : Env → ℕ → ℕ → ℕ → User → M Order
unfolding process_item_ready
mark_item_ready env org oid iid user = do
  check_membership org user.id
  o ← find_one org oid user
  item ← or_raise (item_of iid o) (not_found not_found_code)
  raise_if (is_cancelled item.status) (bad_request validation_error)
  process_item_ready env org oid item

abbrev pub in_order : ℕ → ℕ → Order → Option (ℕ × Order × OrderItem)
in_order oid iid o = elim (item_of iid o) [ none ↦ none | some i ↦ some (oid, o, i) ]

-- `findOne({ where: { id: itemId }, relations: ['order'] })`; the items of a deleted order are deleted.
unfoldable pub item_with_order : ℕ → List (ℕ × Order) → Option (ℕ × Order × OrderItem)
item_with_order iid [] = none
item_with_order iid ((oid, o) ∷ rows) = elim (if is_live o then in_order oid iid o else none) [
  | some found ↦ some found
  | none ↦ item_with_order iid rows
]

unfoldable pub mark_item_ready_from_device : Env → ℕ → ℕ → M Order
unfolding process_item_ready
mark_item_ready_from_device env org iid = do
  found ← gets λ s. item_with_order iid s.orders
  row ← or_raise found (not_found not_found_code)
  raise_if (not (row.1.organization_id == org)) (forbidden forbidden_code)
  raise_if (is_cancelled row.2.status) (bad_request validation_error)
  stored ← gets (organization_order org row.0)
  or_raise stored (not_found not_found_code)
  process_item_ready env org row.0 row.2

abbrev pub with_delivery : Env → OrderItem → OrderItem
with_delivery env i = record i { status = OrderItemStatus.delivered; delivered_at = some env.now }

abbrev pub is_paid : PaymentStatus → Bool
is_paid PaymentStatus.paid = true
is_paid _ = false

abbrev pub with_completion : Env → Order → Order
with_completion env o = record o { status = OrderStatus.completed; completed_at = some env.now }

-- The end of `markItemDelivered`: a paid order whose active items are all delivered is completed.
unfoldable pub auto_complete : Env → ℕ → Order → M Order
auto_complete env oid o =
    if not (is_empty (active_items o))
      && every is_delivered (active_items o)
      && is_paid o.payment_status
    then save_order oid (with_completion env o) >> pure (with_completion env o)
    else pure o

unfoldable pub mark_item_delivered : Env → ℕ → ℕ → ℕ → User → M Order
unfolding auto_complete
mark_item_delivered env org oid iid user = do
  check_membership org user.id
  o ← find_one org oid user
  item ← or_raise (item_of iid o) (not_found not_found_code)
  save_item oid (with_delivery env item)
  update_order_status oid
  updated ← find_one org oid user
  auto_complete env oid updated

unfoldable pub call_order : ℕ → ℕ → User → M Order
call_order org oid user = do check_membership org user.id; find_one org oid user

abbrev pub is_completed : OrderStatus → Bool
is_completed OrderStatus.completed = true
is_completed _ = false

abbrev pub is_cancelled_order : OrderStatus → Bool
is_cancelled_order OrderStatus.cancelled = true
is_cancelled_order _ = false

unfoldable pub complete_order : Env → ℕ → ℕ → User → M Order
complete_order env org oid user = do
  check_membership org user.id
  o ← find_one org oid user
  raise_if (is_completed o.status) (bad_request validation_error)
  raise_if (is_cancelled_order o.status) (bad_request validation_error)
  raise_if (not (is_paid o.payment_status)) (bad_request validation_error)
  save_order oid (with_completion env o)
  find_one org oid user

unfoldable pub save_audit : OrderAuditLog → M (Unit {0})
save_audit entry = modify λ s. record s { audit = entry ∷ s.audit }

unfoldable pub force_update_status : ℕ → ℕ → OrderStatus → String → User → M Order
unfolding save_audit
force_update_status org oid status reason user = do
  check_org_admin org user
  raise_if (is_cancelled_order status) (bad_request validation_error)
  o ← find_one org oid user
  raise_if (is_cancelled_order o.status) (bad_request validation_error)
  save_order oid (record o { status = status })
  save_audit (record {
    organization_id = org;
    order_id = oid;
    actor_user_id = user.id;
    action = force_update_status_action;
    reason = reason;
    before = status_only o.status;
    after = some (status_only status);
    failure = none;
  })
  find_one org oid user
