-- ===== src/Payments/Split/Checks/Tests.antt =====
-- A split payment of one of the two units of the sample order.
use openeos_api.Base.{◌≡◌, ◌⊎◌, List, [], ◌∷◌, ℕ}
use openeos_api.Entities.{Order, OrderItem, PaymentStatus}
use openeos_api.Store.{Exception, ok, err}
use openeos_api.Samples.{unpaid_store, order_with}
use openeos_api.Payments.Split.{SplitPaymentItemDto, items_to_update}
use openeos_api.Payments.Split.Checks.{Matches, items_to_update_lem}

abbrev entries : List SplitPaymentItemDto
entries = record { order_item_id = 20; quantity = 1 } ∷ []

abbrev unpaid_order : Order
unpaid_order = order_with PaymentStatus.unpaid 0

items_to_update_lem_example :
    ((e : Exception) × (items_to_update unpaid_order entries unpaid_store ≡ (err e, unpaid_store)))
    ⊎ ((rows : List (OrderItem × ℕ)) × (items_to_update unpaid_order entries unpaid_store
          ≡ (ok rows, unpaid_store))
        × Matches unpaid_order entries rows)
items_to_update_lem_example = items_to_update_lem unpaid_order entries unpaid_store
