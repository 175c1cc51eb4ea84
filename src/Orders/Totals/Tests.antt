-- ===== src/Orders/Totals/Tests.antt =====
-- The totals of the sample order.
use openeos_api.Base.{get, ◌≡◌, refl, some, ◌+ℤ◌, ◌≤ℤ◌}
use openeos_api.Entities.{Order, PaymentStatus}
use openeos_api.Samples.{unpaid_store, order_with}
use openeos_api.Orders.Rows.{stored_order}
use openeos_api.Orders.Totals.{recalculated, recalculate_order_totals, pfand_total_of}
use openeos_api.Orders.Totals.Laws.{IsTotalled, recalculate_order_totals_lem}

abbrev o : Order
o = order_with PaymentStatus.unpaid 0

recalculate_order_totals_lem_example :
    (stored_order 7 (recalculate_order_totals 7 unpaid_store).1 ≡ some (recalculated o))
    × IsTotalled (recalculated o)
    × (o.tip_amount +ℤ pfand_total_of o.items ≤ℤ (recalculated o).total)
    × (stored_order 7 (recalculate_order_totals 7 (recalculate_order_totals 7 unpaid_store).1).1
        ≡ some (recalculated o))
unfolding stored_order get
recalculate_order_totals_lem_example = recalculate_order_totals_lem 7 unpaid_store o refl
