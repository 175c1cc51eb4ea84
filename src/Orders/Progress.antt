-- ===== src/Orders/Progress.antt =====
-- updateOrderStatus of src/modules/orders/orders.service.ts: the status of an order from its items.
use openeos_api.Base.{ℕ, Bool, true, false, List, if◌then◌else◌, keep, every, exists, is_empty}
use openeos_api.Entities.{Order, OrderItem, OrderStatus, OrderItemStatus}
use openeos_api.Store.{M, modify}
use openeos_api.Orders.Rows.{change_stored}
use openeos_api.Orders.Totals.{is_active}

abbrev pub is_delivered : OrderItem → Bool
is_delivered i = elim i.status [ OrderItemStatus.delivered ↦ true | _ ↦ false ]

abbrev pub is_begun : OrderItem → Bool
is_begun i = elim i.status [ OrderItemStatus.pending ↦ false | _ ↦ true ]

abbrev pub active_items : Order → List OrderItem
active_items o = keep is_active o.items

unfoldable pub derived_status : List OrderItem → OrderStatus → OrderStatus
derived_status active old =
    if is_empty active
    then OrderStatus.open_
    else if every is_delivered active
    then OrderStatus.ready
    else if exists is_begun active
    then OrderStatus.in_progress
    else old

unfoldable pub with_derived_status : Order → Order
unfolding derived_status
with_derived_status o = record o { status = derived_status (active_items o) o.status }

unfoldable pub update_order_status : ℕ → M (Unit {0})
unfolding change_stored
update_order_status oid = modify (change_stored oid with_derived_status)
