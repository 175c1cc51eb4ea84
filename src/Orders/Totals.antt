-- ===== src/Orders/Totals.antt =====
-- recalculateOrderTotals of src/modules/orders/orders.service.ts.
pub mod Laws
mod Tests
use openeos_api.Base.{
  ℕ, ◌*◌, ℤ, pos, ◌+ℤ◌, ◌-ℤ◌, ◌*ℤ◌, min_ℤ, Bool, true, false, Option, none, some, List, [], ◌∷◌,
  if◌then◌else◌,
}
use openeos_api.Entities.{Order, OrderItem, OrderItemStatus}
use openeos_api.Store.{M, modify}
use openeos_api.Orders.Rows.{change_stored}

abbrev pub is_cancelled : OrderItemStatus → Bool
is_cancelled OrderItemStatus.cancelled = true
is_cancelled _ = false

abbrev pub is_active : OrderItem → Bool
is_active i = if is_cancelled i.status then false else true

-- The three sums of the loop, over the items that are not cancelled. The tax of an item is its price
-- in cents times its rate in hundredths of a percent.
unfoldable pub subtotal_of : List OrderItem → ℤ
subtotal_of [] = pos 0
subtotal_of (i ∷ is) = (if is_active i then i.total_price else pos 0) +ℤ subtotal_of is

unfoldable pub tax_total_of : List OrderItem → ℤ
tax_total_of [] = pos 0
tax_total_of (i ∷ is) =
    (if is_active i then i.total_price *ℤ pos i.tax_rate else pos 0) +ℤ tax_total_of is

unfoldable pub pfand_total_of : List OrderItem → ℤ
pfand_total_of [] = pos 0
pfand_total_of (i ∷ is) =
    (if is_active i then i.deposit_amount *ℤ pos i.quantity else pos 0) +ℤ pfand_total_of is

-- The order with its totals computed anew; the discount is capped at the subtotal.
unfoldable pub recalculated : Order → Order
recalculated o =
    let subtotal = subtotal_of o.items in
    let pfand_total = pfand_total_of o.items in
    let effective_discount = min_ℤ o.discount_amount subtotal in
    record o {
      subtotal = subtotal;
      tax_total = tax_total_of o.items;
      pfand_total = pfand_total;
      discount_amount = effective_discount;
      total = subtotal -ℤ effective_discount +ℤ o.tip_amount +ℤ pfand_total;
    }

unfoldable pub recalculate_order_totals : ℕ → M (Unit {0})
unfolding change_stored
recalculate_order_totals oid = modify (change_stored oid recalculated)
